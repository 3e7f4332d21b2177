-- ===== src/Core/Message.antt =====
-- pkg/core/message.go. `time.Now().Unix()` is the argument `now`; a method on `*Message` returns the
-- new record.
use mathlib.Core.Option
use mathlib.Core.Path.{subst}
use async_queue_go.Prelude.{
  String, ◌≡◌, ◌≢◌, Bool, Option, some, inl, inr, arith, if◌then◌else◌, str_eq, eq_iff,
  Option-cases,
}
use async_queue_go.Prelude.Int.{ℤ, pos, ◌+ℤ◌, ◌≤ℤ◌, leb_ℤ, ltb_ℤ, int64}

-- `MessageStatus` is a string type: `other` holds a text that no constant names.
pub data Status : Type 0 where
  waiting reserved delayed timeout failed canceled dropped done : Status
  other : String → Status

pub record Message : Type 0 where
  pub id : String
  pub payload : String
  pub attempts : ℤ
  pub max_attempts : ℤ
  pub status : Status
  pub created_at : ℤ
  pub updated_at : ℤ

-- `maxAttempts <= 0` is read as one attempt.
abbrev pub at_least_one : ℤ → ℤ
at_least_one n = if leb_ℤ n (pos 0) then pos 1 else n

unfoldable pub new_message : String → ℤ → ℤ → Message
new_message payload max now = record {
  id = "";
  payload = payload;
  attempts = pos 0;
  max_attempts = at_least_one max;
  status = waiting;
  created_at = now;
  updated_at = now;
}

unfoldable pub set_status : Status → ℤ → Message → Message
set_status s now m = record m {
  status = s;
  created_at = if leb_ℤ m.created_at (pos 0) then now else m.created_at;
  updated_at = now;
}

-- Counts the attempt, and says whether another one is allowed.
unfoldable pub attempts_allowed : Message → Bool × Message
attempts_allowed m =
    (ltb_ℤ m.attempts m.max_attempts, record m { attempts = int64 (m.attempts +ℤ pos 1) })

abbrev pub or_waiting : Status → Status
or_waiting (other s) = if str_eq s "" then waiting else other s
or_waiting s = s

-- What `DecodeMessage` does after `json.Unmarshal`.
unfoldable pub normalise : ℤ → Message → Message
normalise now m = record m {
  max_attempts = at_least_one m.max_attempts;
  status = or_waiting m.status;
  created_at = if leb_ℤ m.created_at (pos 0) then now else m.created_at;
}

-- `encoding/json` on this struct: `none` is an error.
pub record Json : Type 0 where
  pub marshal : Message → Option String
  pub unmarshal : String → Option Message

unfoldable pub encode : Json → Message → Option String
encode j m = j.marshal m

unfoldable pub decode_message : Json → ℤ → String → Option Message
unfolding normalise
decode_message j now raw = Option.map (normalise now) (j.unmarshal raw)

-- A decoded message has a positive attempt limit, a creation time and a status.
pub record IsNormal (m : Message) : Type 0 where
  pub limited : pos 1 ≤ℤ m.max_attempts
  pub dated : pos 1 ≤ℤ m.created_at
  pub named : m.status ≢ other ""

or_waiting_named : (s : Status) → or_waiting s ≢ other ""
or_waiting_named (other s) e = ground (arith, eq_iff s "")
or_waiting_named waiting e = cc
or_waiting_named _ e = cc

normalise-IsNormal : (now : ℤ) (m : Message) → pos 1 ≤ℤ now → IsNormal (normalise now m)
unfolding normalise
normalise-IsNormal now m h = record {
  limited = ground arith;
  dated = ground arith;
  named = or_waiting_named m.status;
}

-- A message that `DecodeMessage` returns, read at a positive time, has an attempt limit of at
-- least one, a positive creation time and a non-empty status, whatever the JSON text held.
pub decode_message-IsNormal :
    (j : Json) (now : ℤ) (raw : String) (m : Message)
    → pos 1 ≤ℤ now
    → decode_message j now raw ≡ some m
    → IsNormal m
unfolding decode_message
decode_message-IsNormal j now raw m h e = elim (Option-cases (j.unmarshal raw)) [
  | inl bad ↦ ground arith
  | inr (parsed, read) ↦ subst IsNormal (ground arith) (normalise-IsNormal now parsed h)
]

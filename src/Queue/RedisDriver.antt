-- ===== src/Queue/RedisDriver.antt =====
-- pkg/queue/redis_driver.go: the operations of `RedisDriver`. The client library runs a program on
-- the server and may fail instead; `now` is the clock's Unix time. The key cache returns what
-- `NewKeys` does, so keys are built anew here (Construction). Ids are MD5 sums, a parameter.
pub mod Replies
pub mod Reloading
pub mod Forwarding
pub mod Loading
pub mod Claiming
pub mod Construction
use Prim.Native.String.{◌++◌}
use async_queue_go.Prelude.{
  ℕ, zero, suc, ◌+◌, ◌/◌, String, Bool, true, false, ◌&&◌, ◌||◌, Option, none, some, if◌then◌else◌,
  str_eq,
}
use async_queue_go.Prelude.Int.{ℤ, pos, negsuc, ◌+ℤ◌, leb_ℤ, ltb_ℤ, int64, pos_part}
use async_queue_go.Redis.Program.{Program, on, pure}
use async_queue_go.Redis.Server.{Server}
use async_queue_go.Core.Message.{Json, Message, set_status, encode, decode_message}
use async_queue_go.Core.Message
use async_queue_go.Queue.Keys.{Keys, new_keys, message}
use async_queue_go.Queue.Keys
use async_queue_go.Queue.Cjson.{Cjson}
use async_queue_go.Queue.Lua.Commit.{Mode, to_waiting, to_delayed}
use async_queue_go.Queue.Lua.Commit
use async_queue_go.Queue.Lua.Move
use async_queue_go.Queue.Lua.Manage
use async_queue_go.Queue.Lua.Sequence

pub data Error : Type 0 where
  id_empty encode_failed decode_failed already_ready in_execution context_done : Error
  -- redis.Nil from GET
  missing : Error
  unsupported : String → Error
  unexpected : ℤ → Error
  -- an error of the client library
  client : ℕ → Error

pub data Reply {ℓ} (A : Type ℓ) : Type ℓ where
  ok : A → Reply A
  err : Error → Reply A

-- go-redis: either the program has run, or there is an error and any state.
pub record Client (D : Type 0) : Type 1 where
  pub run : (A : Type 0) → Program D A → D → Reply A × D

abbrev pub Call : Type 0 → Type 0 → Type 0
Call D A = D → Reply A × D

module _ {D A B : Type 0} where
  abbrev pub continue : Reply A × D → (A → Call D B) → Reply B × D
  continue (ok a, d) f = f a d
  continue (err e, d) f = (err e, d)

  infixl 5 ◌>>=◌
  abbrev pub ◌>>=◌ : Call D A → (A → Call D B) → Call D B
  ◌>>=◌ m f d = continue (m d) f

abbrev pub return {ℓ} : {D : Type 0} {A : Type ℓ} → A → D → Reply A × D
return a d = (ok a, d)

abbrev pub throw {ℓ} : {D : Type 0} {A : Type ℓ} → Error → D → Reply A × D
throw e d = (err e, d)

abbrev pub or_throw : {D A : Type 0} → Option A → Error → Call D A
or_throw none e = throw e
or_throw (some a) e = return a

pub record Info : Type 0 where
  pub waiting : ℕ
  pub reserved : ℕ
  pub delayed : ℕ
  pub timeout : ℕ
  pub failed : ℕ

abbrev pub max_message_sequence : ℕ
max_message_sequence = 999_999_999_999

-- The message that `Retry` stores: its status by the delay, and one attempt more within the limit.
unfoldable pub retried_message : ℤ → ℤ → Message → Message
retried_message delay now m =
    let m' =
      set_status (if leb_ℤ delay (pos 0) then Message.Status.waiting else Message.Status.delayed)
        now m in
    record m' {
      attempts =
          if ltb_ℤ m'.attempts m'.max_attempts then int64 (m'.attempts +ℤ pos 1) else m'.attempts;
    }

unfoldable pub cancel_reply : ℤ → Reply Bool
cancel_reply (pos zero) = ok false
cancel_reply (pos (suc zero)) = ok true
cancel_reply (negsuc zero) = err already_ready
cancel_reply (negsuc (suc zero)) = err in_execution
cancel_reply code = err (unexpected code)

-- The libraries: the server, its client, both JSON codecs, MD5 in hexadecimal, decimal texts, and the
-- value that the call of a script gives beside an error, `none` if that is nil.
pub record Libraries (s : Server) : Type 1 where
  pub client : Client s.Db
  pub cjson : Cjson
  pub json : Json
  pub md5 : String → String
  pub decimal : ℕ → String
  pub beside : Error → Option String

-- `errors.Is(err, redis.Nil)`
abbrev pub is_nil : Error → Bool
is_nil missing = true
is_nil e = false

abbrev not_there : Option String → Bool
not_there none = true
not_there (some text) = false

-- PING reads and writes nothing.
unfoldable pub ping : (s : Server) → Libraries s → Call s.Db (Unit {0})
ping s l = l.client.run Unit (pure tt)

module _ (s : Server) (l : Libraries s) (now : ℤ) (channel : String) where
  abbrev run : {A : Type 0} → Program s.Db A → Call s.Db A
  run {A} m = l.client.run A m

  abbrev k : Keys
  k = new_keys channel

  unfoldable pub generate_id : Call s.Db String
  generate_id =
      run (Sequence.next_seq s k.sequence_key k.sequence_epoch max_message_sequence) >>= λ p.
      return (l.md5 (channel ++ (":" ++ (l.decimal p.1 ++ (":" ++ l.decimal p.0)))))

  -- The stored message, which carries its id; `m == nil` is excluded by the type. `SetStatus` reads
  -- `time.Now`, which is taken to agree with the driver's clock.
  unfoldable pub push : Message → ℤ → ℤ → Call s.Db Message
  push m delay message_ttl = do
    id ← generate_id
    let named = record m { id = id }
    let ready = leb_ℤ delay (pos 0) && leb_ℤ (pos 0) delay
    let stored =
        set_status (if ready then Message.Status.waiting else Message.Status.delayed) now named
    raw ← or_throw (encode l.json stored) encode_failed
    _ ← run (
        Commit.push s k.waiting k.delayed (message k id) id raw
          (if ready then to_waiting else to_delayed) (if ready then pos 0 else int64 (now +ℤ delay))
          (if ltb_ℤ message_ttl (pos 0) then pos 0 else message_ttl))
    return stored

  unfoldable pub load_message : String → Call s.Db Message
  load_message id = do
    found ← run (s.get (message k id))
    raw ← or_throw found missing
    or_throw (decode_message l.json now raw) decode_failed

  unfoldable pub get : String → Call s.Db Message
  get id = if str_eq id "" then throw id_empty else load_message id

  unfoldable pub cancel : String → Call s.Db Bool
  cancel id =
      if str_eq id ""
      then throw id_empty
      else (run (Manage.cancel_by_id s l.cjson k.waiting k.reserved k.delayed (message k id) id now)
          >>= λ code d. (cancel_reply code, d))

  abbrev found_or_missing : Reply Message × s.Db → Reply (Option Message) × s.Db
  found_or_missing (ok m, d) = (ok (some m), d)
  found_or_missing (err missing, d) = (ok none, d)
  found_or_missing (err e, d) = (err e, d)

  unfoldable pub retry : String → ℤ → Call s.Db Bool
  retry id delay =
      if str_eq id ""
      then throw id_empty
      else ((λ d. found_or_missing (load_message id d)) >>= λ found. on found (return false) λ m. do
        raw ← or_throw (encode l.json (retried_message delay now m)) encode_failed
        run (
            Manage.retry_by_id s k (message k id) id (int64 (now +ℤ delay)) raw
              (if leb_ℤ delay (pos 0) then to_waiting else to_delayed)))

  -- Delayed messages that are due within a second, and reservations that have run out.
  unfoldable pub forward_messages : Call s.Db (ℕ × ℕ)
  forward_messages = do
    delayed ← run (
        Move.move s l.cjson k.delayed k.waiting k.message_prefix (int64 (now +ℤ pos 1))
          Message.Status.waiting)
    timeout ← run (Move.move_timeout s k.reserved k.timeout k.message_prefix now)
    return (delayed, timeout)

  unfoldable pub ack : String → Call s.Db (Unit {0})
  ack id = run (Commit.ack s l.cjson k.reserved (message k id) id now)

  unfoldable pub fail : String → Call s.Db (Unit {0})
  fail id = run (Commit.fail s l.cjson k.reserved k.failed (message k id) id now)

  unfoldable pub drop : String → Call s.Db (Unit {0})
  drop id = run (Commit.drop s l.cjson k.reserved (message k id) id now)

  unfoldable pub requeue : String → Call s.Db (Unit {0})
  requeue id = run (Commit.requeue s l.cjson k.reserved k.waiting (message k id) id now)

  -- An empty name stands for `failed`.
  unfoldable pub flush : String → Call s.Db (Unit {0})
  flush queue =
      if str_eq queue ""
      then run (s.del k.failed)
      else (do key ← or_throw (Keys.get k queue) (unsupported queue); run (s.del key))

  unfoldable pub info : Call s.Db Info
  info = do
    w ← run (s.llen k.waiting)
    r ← run (s.zcard k.reserved)
    d ← run (s.zcard k.delayed)
    t ← run (s.llen k.timeout)
    f ← run (s.llen k.failed)
    return (record { waiting = w; reserved = r; delayed = d; timeout = t; failed = f })

  -- What a call of the script leads to: the end with the total so far, or a further round.
  abbrev reloaded :
      (ℕ → s.Db → Option (ℕ × Option Error) × s.Db)
      → ℕ
      → Reply ℕ × s.Db
      → Option (ℕ × Option Error) × s.Db
  reloaded again total (err e, d) = (some (total, some e), d)
  reloaded again total (ok zero, d) = (some (total, none), d)
  reloaded again total (ok (suc n), d) = again (total + suc n) d

  -- The loop of `Reload`; `none` is that the fuel was not enough.
  unfoldable pub reload_rounds : ℕ → String → Bool → ℕ → s.Db → Option (ℕ × Option Error) × s.Db
  reload_rounds zero source skip total d = (none, d)
  reload_rounds (suc fuel) source skip total d =
      reloaded (reload_rounds fuel source skip) total
        (run (Manage.reload s l.cjson source k.waiting k.message_prefix now skip) d)

  -- The total and the error; an empty name stands for `failed`.
  unfoldable pub reload : ℕ → String → s.Db → Option (ℕ × Option Error) × s.Db
  reload fuel queue d =
      if str_eq queue ""
      then reload_rounds fuel k.failed false 0 d
      else if str_eq queue "timeout"
      then reload_rounds fuel k.timeout true 0 d
      else if str_eq queue "failed"
      then reload_rounds fuel k.failed false 0 d
      else (some (0, some (unsupported queue)), d)

  -- What follows the script in `Pop`: no message is dispatched without its stored text.
  unfoldable pub take : String → Call s.Db (Option (String × Message))
  take id = (λ d. found_or_missing (load_message id d)) >>= λ found.
      on found (λ d. (ok none, (l.client.run ℕ (s.zrem k.reserved id) d).1))
        λ m. return (some (id, m))

  abbrev waited : Bool → Call s.Db (Option (String × Message))
  waited cancelled = if cancelled then throw context_done else return none

  -- The tests `errors.Is(err, redis.Nil) || res == nil`, and then `err != nil`.
  abbrev claimed : Bool → Reply (Option String) × s.Db → Reply (Option (String × Message)) × s.Db
  claimed cancelled (err e, d) =
      (if is_nil e || not_there (l.beside e) then waited cancelled else throw e) d
  claimed cancelled (ok none, d) = waited cancelled d
  claimed cancelled (ok (some id), d) = (if str_eq id "" then return none else take id) d

  -- Ten seconds if no handle timeout is set.
  unfoldable pub deadline : ℕ → ℤ → ℤ
  deadline fraction handle_timeout =
      let timeout =
        if leb_ℤ handle_timeout (pos 0) then 10_000_000_000 else pos_part handle_timeout in
      int64 (now +ℤ pos ((fraction + timeout) / 1_000_000_000))

  -- `fraction` is the part of the clock's time below a second, in nanoseconds; `cancelled` says that
  -- the context ends before the wait of an empty queue does.
  unfoldable pub pop : ℕ → ℤ → Bool → Call s.Db (Option (String × Message))
  pop fraction handle_timeout cancelled d = claimed cancelled (
      run
        (Move.pop s l.cjson k.waiting k.reserved k.message_prefix now
          (deadline fraction handle_timeout))
        d)

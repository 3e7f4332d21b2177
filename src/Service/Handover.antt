-- ===== src/Service/Handover.antt =====
-- A message on its way from the queue (asyncqueue/asyncqueue.go) through the Redis driver
-- (pkg/queue/redis_driver.go) to a consumer: `PushMessage` and then `Pop`.
pub mod Handled
use text.Mathlib.TextPositions.{eq_refl}
use async_queue_go.Prelude.{
  ℕ, String, ◌≡◌, refl, ap, ◌∙◌, Bool, false, Bool-cases, inl, inr, List, [], ◌∷◌, Option, some,
  arith, if◌then◌else◌, str_eq,
}
use async_queue_go.Prelude.Int.{ℤ, pos, ◌≤ℤ◌}
use async_queue_go.Redis.Keyspace.{zinsert, zremove}
use async_queue_go.Redis.Server.{Server}
use async_queue_go.Redis.Agreement.{IsRedis}
use async_queue_go.Core.Message.{Json, Message, reserved, normalise, set_status}
use async_queue_go.Queue.Cjson.{Cjson, stamped}
use async_queue_go.Queue.State.{Channel, observe, mark_entity}
use async_queue_go.Queue.State.Commit.{channel_ext}
use async_queue_go.Queue.State.Claim.{claim_from, pop_spec}
use async_queue_go.Queue.State.Enqueue.{push_spec, push_refines}
use async_queue_go.Queue.Lua.Commit.{to_waiting}
use async_queue_go.Queue.State.Numbering.{observe-next_seq}
use async_queue_go.Queue.RedisDriver.{Libraries, ok, pop, deadline, max_message_sequence}
use async_queue_go.Queue.RedisDriver.Replies.{IsConnected}
use async_queue_go.Queue.RedisDriver.Claiming.{pop-message}
use async_queue_go.Service.Facade.{prepared, push_message, redis}
use async_queue_go.Service.Options.{QueueOptions}
use async_queue_go.Service.Roundtrip.{stored_as, numbered, new_id, enqueued, push_step}

-- The message as it is when it has been claimed.
abbrev pub claimed_as : ℤ → Message → Message
claimed_as later m = record m { status = reserved; updated_at = later }

-- Both JSON libraries agree on these messages, one for each id: what `encoding/json` writes, cjson can
-- decode, and once a script has marked it, `encoding/json` reads the two fields that were set, and
-- the others as they were.
abbrev pub IsShared : Json → Cjson → ℤ → (String → Message) → Type 0
IsShared j c later m =
    (id : String)
    → (raw : String) × (t : c.Table) × (j.marshal (m id) ≡ some raw)
      × (c.decode raw ≡ some t)
      × (j.unmarshal (stamped c reserved later t) ≡ some (claimed_as later (m id)))

-- The channel when a message has passed through an empty waiting list: the id is reserved up to a
-- deadline, and the text is stored.
abbrev pub passed : String → String → ℤ → Channel → Channel
passed id text until o = record o {
  reserved = zinsert id until (zremove id o.reserved);
  entity = λ j. if str_eq id j then some text else o.entity j;
}

pub normalise-claimed :
    (now later any : ℤ) (id : String) (m : Message)
    → pos 1 ≤ℤ now
    → let claimed = claimed_as later (stored_as (pos 0) now id (prepared (pos 0) now m)) in
      normalise any claimed ≡ claimed
unfolding normalise set_status prepared
normalise-claimed now later any id m h = ground arith

module _ (c : Cjson) (later until : ℤ) (id raw : String) (t : c.Table) (o : Channel)
    (d : c.decode raw ≡ some t) where
  text-marked :
      (j : String)
      → mark_entity c reserved later id (push_spec to_waiting (pos 0) id raw o).entity j
        ≡ (passed id (stamped c reserved later t) until o).entity j
  unfolding push_spec
  text-marked j = elim (Bool-cases (str_eq id j)) [
    | inl same ↦ simp (same, eq_refl id, d)
    | inr other ↦ simp other
  ]

  pop_spec-push_spec :
      o.waiting ≡ []
      → pop_spec c later until (push_spec to_waiting (pos 0) id raw o)
        ≡ (some id, passed id (stamped c reserved later t) until o)
  unfolding pop_spec push_spec claim_from
  pop_spec-push_spec h = rw h (
      rw (eq_refl id) (
        rw d (
          ap (λ (p : Channel). (some id, p))
            (channel_ext _ _ refl refl refl refl refl (unfold push_spec in text-marked)))))

module _ (s : Server) (r : IsRedis s) (l : Libraries s) (now later : ℤ) (channel : String)
    (up : IsConnected l.client) where
  -- The channel after a push into waiting.
  observe-pushed :
      (raw : String) (ttl : ℤ) (db : s.Db)
      → let id = new_id s r l now channel up db in
        observe channel (
          r.view
            (enqueued s r l now channel up id raw (pos 0) ttl (numbered s r l now channel up db).1))
        ≡ push_spec to_waiting (pos 0) id raw (observe channel (r.view db))
  observe-pushed raw ttl db =
      push_refines s r channel _ raw _ _ _ _
      ∙ ap (push_spec to_waiting (pos 0) (new_id s r l now channel up db) raw)
          (observe-next_seq s r channel max_message_sequence db)

  -- On a server that behaves as documented and is reachable, a message that is pushed through the queue
  -- without a delay, while none is waiting, is what the next `Pop` of the driver hands out: under the
  -- id that the push returned, which is not empty, with the payload and the attempts that were
  -- pushed, at least one attempt allowed, and the status reserved. It stands then in reserved, at its
  -- deadline, and its stored text reads as that message; nothing else of the channel changes. Both
  -- JSON libraries agree on the message, MD5 sums are not empty, and the time is positive.
  pub push_message-pop :
      (fuel fraction : ℕ) (o : QueueOptions) (m : Message) (timeout : ℤ) (cancelled : Bool)
      (db : s.Db)
      → pos 1 ≤ℤ now
      → ((text : String) → str_eq (l.md5 text) "" ≡ false)
      → (observe channel (r.view db)).waiting ≡ []
      → let stored = λ (id : String). stored_as (pos 0) now id (prepared (pos 0) now m) in
        IsShared l.json l.cjson later stored
        → (id text : String) × (db1 db2 : s.Db) × (str_eq id "" ≡ false)
          × (push_message (redis s l now channel fuel) o now m (pos 0) db ≡ (ok id, db1))
          × (pop s l later channel fraction timeout cancelled db1
              ≡ (ok (some (id, claimed_as later (stored id))), db2))
          × (l.json.unmarshal text ≡ some (claimed_as later (stored id)))
          × (observe channel (r.view db2)
              ≡ passed id text
                  (deadline s l later channel fraction timeout)
                  (observe channel (r.view db)))
  unfolding push_message set_status
  push_message-pop fuel fraction o m timeout cancelled db positive named none_waits shared =
      let m' = prepared (pos 0) now m in
      let id = new_id s r l now channel up db in
      let (raw, t, written, decoded, read) = shared id in
      let db1 =
        enqueued s r l now channel up id raw (pos 0) o.message_ttl
          (numbered s r l now channel up db).1 in
      let until = deadline s l later channel fraction timeout in
      let (db2, popped, left) =
        pop-message s r l later channel fraction timeout db1 up cancelled id
          (stamped l.cjson reserved later t) _ _
          (ap (pop_spec l.cjson later until) (observe-pushed raw o.message_ttl db)
            ∙ pop_spec-push_spec l.cjson later until id raw t _ decoded none_waits)
          (named _) (rw (eq_refl id) refl) read in
      (
        id,
        stamped l.cjson reserved later t,
        db1,
        db2,
        named _,
        rw (push_step s r l now channel up m' (pos 0) o.message_ttl raw db written) refl,
        popped
            ∙ ap (λ (n : Message). (ok (some (id, n)), db2))
                (normalise-claimed now later later id m positive),
        read,
        left,
      )

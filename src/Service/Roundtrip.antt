-- ===== src/Service/Roundtrip.antt =====
-- A message that is pushed through the queue (asyncqueue/asyncqueue.go) and the Redis driver
-- (pkg/queue/redis_driver.go) can be read back by its id.
use async_queue_go.Prelude.{
  ℕ, String, ◌≡◌, refl, ap, ◌∙◌, Bool, false, ◌&&◌, some, arith, if◌then◌else◌, str_eq,
}
use text.Mathlib.TextPositions.{eq_refl}
use async_queue_go.Prelude.Int.{ℤ, pos, negsuc, ◌+ℤ◌, ◌≤ℤ◌, leb_ℤ, ltb_ℤ, int64}
use async_queue_go.Redis.Server.{Server}
use async_queue_go.Redis.Agreement.{IsRedis}
use async_queue_go.Core.Message.{Json, Message, Status, set_status, normalise, encode}
use async_queue_go.Queue.Keys.{new_keys, message}
use async_queue_go.Queue.Lua.Commit.{to_waiting, to_delayed, Mode}
use async_queue_go.Queue.Lua.Commit
use async_queue_go.Queue.Lua.Sequence
use Prim.Native.String.{◌++◌}
use async_queue_go.Queue.State.{Channel, observe}
use async_queue_go.Redis.Keyspace.{zcount, zremove}
use async_queue_go.Queue.State.Counts.{zcount-zinsert, zcount-zremove}
use async_queue_go.Queue.State.Enqueue.{push_spec, push_refines}
use async_queue_go.Queue.RedisDriver.{Libraries, ok, push, max_message_sequence, get, generate_id}
use async_queue_go.Queue.RedisDriver.Replies.{IsConnected}
use async_queue_go.Queue.RedisDriver.Loading.{message_loaded}
use async_queue_go.Service.Facade.{prepared, push_message, get_message, redis}
use async_queue_go.Service.Options.{QueueOptions}

-- JSON texts of these messages, one for each id, are read back as they were written.
abbrev pub IsReadBack : Json → (String → Message) → Type 0
IsReadBack j m =
    (id : String) → (raw : String) × (j.marshal (m id) ≡ some raw) × (j.unmarshal raw ≡ some (m id))

-- What is stored: a delay of 0 is waiting, and any other one delayed.
abbrev pub stored_as : ℤ → ℤ → String → Message → Message
stored_as delay now id m =
    set_status
      (if leb_ℤ delay (pos 0) && leb_ℤ (pos 0) delay then Status.waiting else Status.delayed) now
      (record m { id = id })

text-push_spec :
    (mode : Mode) (score : ℤ) (id raw : String) (o : Channel)
    → (push_spec mode score id raw o).entity id ≡ some raw
unfolding push_spec
text-push_spec to_waiting score id raw o = rw (eq_refl id) refl
text-push_spec to_delayed score id raw o = rw (eq_refl id) refl

-- What the queue stores is as `DecodeMessage` leaves it.
normalise-stored :
    (delay now : ℤ) (id : String) (m : Message)
    → pos 1 ≤ℤ now
    → let stored = stored_as delay now id (prepared delay now m) in normalise now stored ≡ stored
unfolding normalise set_status prepared
normalise-stored delay now id m h = ground arith

module _ (s : Server) (r : IsRedis s) (l : Libraries s) (now : ℤ) (channel : String)
    (up : IsConnected l.client) where
  get-stored :
      (id raw : String) (m : Message) (db : s.Db)
      → str_eq id "" ≡ false
      → (observe channel (r.view db)).entity id ≡ some raw
      → l.json.unmarshal raw ≡ some m
      → (get s l now channel id db).0 ≡ ok (normalise now m)
  unfolding get
  get-stored id raw m db named h j =
      rw named (ap (λ p. p.0) (message_loaded s r channel id db l now raw m up h j))

  -- GenerateID, and the mode and the score of a push.
  abbrev pub numbered : s.Db → (ℕ × ℕ) × s.Db
  numbered =
      let k = new_keys channel in
      Sequence.next_seq s k.sequence_key k.sequence_epoch max_message_sequence

  abbrev pub new_id : s.Db → String
  new_id db =
      let p = (numbered db).0 in
      l.md5 (channel ++ (":" ++ (l.decimal p.1 ++ (":" ++ l.decimal p.0))))

  id-generated : (db : s.Db) → generate_id s l now channel db ≡ (ok (new_id db), (numbered db).1)
  unfolding generate_id
  id-generated db = rw up refl

  abbrev pub ready : ℤ → Bool
  ready delay = leb_ℤ delay (pos 0) && leb_ℤ (pos 0) delay

  abbrev pub enqueued : String → String → ℤ → ℤ → s.Db → s.Db
  enqueued id raw delay ttl db =
      let k = new_keys channel in
      (Commit.push s k.waiting k.delayed (message k id) id raw
        (if ready delay then to_waiting else to_delayed)
        (if ready delay then pos 0 else int64 (now +ℤ delay))
        (if ltb_ℤ ttl (pos 0) then pos 0 else ttl) db).1

  pub push_step :
      (m : Message) (delay ttl : ℤ) (raw : String) (db : s.Db)
      → l.json.marshal (stored_as delay now (new_id db) m) ≡ some raw
      → push s l now channel m delay ttl db ≡ (
        ok (stored_as delay now (new_id db) m),
        enqueued (new_id db) raw delay ttl (numbered db).1,
      )
  unfolding push encode
  push_step m delay ttl raw db e = rw (id-generated db) (rw e (rw up refl))

  text-enqueued :
      (id raw : String) (delay ttl : ℤ) (db : s.Db)
      → (observe channel (r.view (enqueued id raw delay ttl db))).entity id ≡ some raw
  text-enqueued id raw delay ttl db =
      ap (λ (o : Channel). o.entity id) (push_refines s r channel id raw _ _ _ db)
      ∙ text-push_spec _ _ id raw _

-- Through the queue and the Redis driver, on a server that behaves as documented and is reachable: a
-- push returns an id, and a lookup of that id returns the message, with the id, at least one attempt
-- allowed and the status by its delay, and otherwise as it was pushed; if its JSON text can be read
-- back, ids are not empty, and the time is positive.
pub push_message-get_message :
    (s : Server) (r : IsRedis s) (l : Libraries s) (now : ℤ) (channel : String) (fuel : ℕ)
    (o : QueueOptions) (m : Message) (delay : ℤ) (db : s.Db)
    → IsConnected l.client
    → pos 1 ≤ℤ now
    → ((text : String) → str_eq (l.md5 text) "" ≡ false)
    → let stored = λ (id : String). stored_as delay now id (prepared delay now m) in
      let queue = redis s l now channel fuel in
      IsReadBack l.json stored
      → (id : String) × (db' : s.Db) × (push_message queue o now m delay db ≡ (ok id, db'))
        × ((get_message queue id db').0 ≡ ok (stored id))
unfolding push_message get_message set_status
push_message-get_message s r l now channel fuel o m delay db up positive named canonical =
    let m' = prepared delay now m in
    let id = new_id s r l now channel up db in
    let (raw, written, read) = canonical id in
    let db' =
      enqueued s r l now channel up id raw delay o.message_ttl
        (numbered s r l now channel up db).1 in
    (
      id,
      db',
      rw (push_step s r l now channel up m' delay o.message_ttl raw db written) refl,
      rw (named _) (
          get-stored s r l now channel up id raw _ db' (named _)
            (text-enqueued s r l now channel up id raw delay o.message_ttl _) read
          ∙ ap ok (normalise-stored delay now id m positive)),
    )

delayed-push_spec :
    (score : ℤ) (id raw : String) (o : Channel)
    → zcount id (push_spec to_delayed score id raw o).delayed ≡ 1
unfolding push_spec
delayed-push_spec score id raw o = ground (
  arith,
  eq_refl id,
  zcount-zinsert id id score (zremove id o.delayed),
  zcount-zremove id id o.delayed,
)

-- An id that is put into delayed stands there once.
delayed-enqueued :
    (s : Server) (r : IsRedis s) (l : Libraries s) (now : ℤ) (channel : String)
    (up : IsConnected l.client) (id raw : String) (delay ttl : ℤ) (db : s.Db)
    → ready s r l now channel up delay ≡ false
    → zcount id
        (observe channel (r.view (enqueued s r l now channel up id raw delay ttl db))).delayed
      ≡ 1
delayed-enqueued s r l now channel up id raw delay ttl db late =
    ap (λ (c : Channel). zcount id c.delayed) (push_refines s r channel id raw _ _ _ db)
    ∙ rw late (delayed-push_spec _ id raw _)

-- A push with a negative delay, on such a server and with such libraries, puts the message into
-- delayed, where only the forwarder takes it out, although the queue hands it over as waiting.
pub negative_delay_waits :
    (s : Server) (r : IsRedis s) (l : Libraries s) (now : ℤ) (channel : String) (fuel : ℕ)
    (o : QueueOptions) (m : Message) (n : ℕ) (db : s.Db)
    → IsConnected l.client
    → IsReadBack l.json (λ id. stored_as (negsuc n) now id (prepared (negsuc n) now m))
    → ((prepared (negsuc n) now m).status ≡ Status.waiting)
      × ((id : String) × (db' : s.Db) × (push_message
              (redis s l now channel fuel)
              o
              now
              m
              (negsuc n)
              db
            ≡ (ok id, db'))
          × (zcount id (observe channel (r.view db')).delayed ≡ 1))
unfolding push_message set_status prepared
negative_delay_waits s r l now channel fuel o m n db up canonical =
    let m' = prepared (negsuc n) now m in
    let id = new_id s r l now channel up db in
    let (raw, written, read) = canonical id in
    let db1 = (numbered s r l now channel up db).1 in
    (
      ground arith,
      (
        id,
        enqueued s r l now channel up id raw (negsuc n) o.message_ttl db1,
        rw (push_step s r l now channel up m' (negsuc n) o.message_ttl raw db written) refl,
        delayed-enqueued s r l now channel up id raw (negsuc n) o.message_ttl db1 (ground arith),
      ),
    )

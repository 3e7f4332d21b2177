-- ===== src/Queue/RedisDriver/Replies.antt =====
-- What callers of the driver are told.
use async_queue_go.Prelude.{
  inl, inr, Bool-cases, ℕ, String, ◌≡◌, refl, ap, ◌∙◌, true, false, Option, none, arith, ltb,
  if◌then◌else◌, str_eq,
}
use async_queue_go.Prelude.Int.{ℤ}
use async_queue_go.Redis.Keyspace.{zcount, score, is_some}
use async_queue_go.Redis.Program.{Program}
use async_queue_go.Redis.Server.{Server}
use async_queue_go.Redis.Agreement.{IsRedis}
use async_queue_go.Queue.Keys.{new_keys}
use async_queue_go.Queue.Cjson.{Cjson}
use async_queue_go.Queue.Lua.Move
use async_queue_go.Queue.State.Cancel.{cancel_spec, cancel_refines}
use async_queue_go.Queue.State.{Channel, observe}
use async_queue_go.Queue.RedisDriver.{
  is_nil, ok, err, Error, already_ready, in_execution, Client, Libraries, cancel, cancel_reply, pop,
  deadline,
}

-- The network works: a program that is sent is run.
abbrev pub IsConnected : {D : Type 0} → Client D → Type 1
IsConnected {D} client =
    (A : Type 0) → (m : Program D A) → (d : D) → client.run A m d ≡ (ok (m d).0, (m d).1)

cancel_reply-cancel_spec :
    (c : Cjson) (now : ℤ) (id : String) (o : Channel)
    → cancel_reply (cancel_spec c now id o).0 ≡ (
        if ltb 0 (zcount id o.delayed)
        then ok true
        else if is_some (score id o.reserved)
        then err in_execution
        else err already_ready)
unfolding cancel_reply cancel_spec
cancel_reply-cancel_spec c now id o = ground arith

-- On a server that behaves as documented and is reachable, a cancel of a non-empty id succeeds
-- exactly when the message is delayed; otherwise it is "already in execution" when the message is
-- reserved, and "already ready for dispatch" in every other case: also for a finished message and
-- for an id that was never issued. The reply "not found", false without an error, is never given.
pub cancel_replies :
    (s : Server) (r : IsRedis s) (l : Libraries s) (now : ℤ) (name id : String) (db : s.Db)
    → IsConnected l.client
    → str_eq id "" ≡ false
    → let before = observe name (r.view db) in
      (cancel s l now name id db).0 ≡ (
        if ltb 0 (zcount id before.delayed)
        then ok true
        else if is_some (score id before.reserved)
        then err in_execution
        else err already_ready)
unfolding cancel
cancel_replies s r l now name id db up named = rw named (
    rw up (
      ap (λ p. cancel_reply p.0) (cancel_refines s r l.cjson name now id db)
      ∙ cancel_reply-cancel_spec l.cjson now id (observe name (r.view db))))

-- No call of a script gets through, and a failed one gives nil beside the error, as go-redis does.
abbrev pub IsCutOff : (s : Server) → Libraries s → Type 0
IsCutOff s l =
    (m : Program s.Db (Option String)) (db : s.Db)
    → (e : Error) × (db' : s.Db) × (l.client.run (Option String) m db ≡ (err e, db'))
      × (l.beside e ≡ none)

-- A failed call of the script is answered as an empty queue, after the wait.
pub pop_hides_errors :
    (s : Server) (l : Libraries s) (now : ℤ) (name : String) (fraction : ℕ) (timeout : ℤ)
    (db : s.Db)
    → IsCutOff s l
    → (pop s l now name fraction timeout false db).0 ≡ ok none
unfolding pop
pop_hides_errors s l now name fraction timeout db down =
    let (e, db', failed, nil) =
      down
        (Move.pop s l.cjson (new_keys name).waiting (new_keys name).reserved
          (new_keys name).message_prefix now (deadline s l now name fraction timeout))
        db in
    rw (failed, nil) (elim (Bool-cases (is_nil e)) [ inl h ↦ rw h refl | inr h ↦ rw h refl ])

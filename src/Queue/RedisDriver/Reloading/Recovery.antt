-- ===== src/Queue/RedisDriver/Reloading/Recovery.antt =====
-- What a consumer that never commits leaves behind is handed out again, once the forwarder and an
-- operator have run: `ForwardMessages` and `Reload` of pkg/queue/redis_driver.go.
use mathlib.Core.Path.{subst}
use async_queue_go.Prelude.{
  ℕ, zero, suc, ◌+◌, ◌≤◌, ◌<◌, String, ◌≡◌, refl, sym, ap, ◌∙◌, true, List, [], ◌∷◌, Option, none,
  some, inl, inr, arith, length, take,
}
use async_queue_go.Prelude.Int.{ℤ, pos, ◌+ℤ◌, int64, leb_ℤ}
use async_queue_go.Redis.Keyspace.{count, due, score}
use async_queue_go.Redis.Server.{Server}
use async_queue_go.Redis.Agreement.{IsRedis}
use async_queue_go.Queue.Keys.{new_keys}
use async_queue_go.Queue.Cjson.{Cjson, IsCjson}
use async_queue_go.Queue.State.{Channel, observe}
use async_queue_go.Queue.State.Forward.{forward_one, forward_each, forward_spec}
use async_queue_go.Queue.State.Reload.{timeout, source_key, reload_spec, reload_refines}
use async_queue_go.Queue.State.Alive.{is_live, Alive}
use async_queue_go.Queue.State.Lease.{IsLeased, zcount-score}
use async_queue_go.Queue.State.Lossless.{forward_each-Alive}
use async_queue_go.Queue.RedisDriver.Forwarding.{forward_messages_spec, forward_messages_refines}
use async_queue_go.Queue.State.Recovery.{
  IsBack, reload_spec-IsBack, reload_spec-recovers, expire_spec-timeout,
}
use async_queue_go.Queue.RedisDriver.{Libraries, reload_rounds, reload, forward_messages, Error}
use async_queue_go.Queue.RedisDriver.Replies.{IsConnected}
use async_queue_go.Queue.RedisDriver.Reloading.{
  script, rounds_step, ℕ-cases, reload-rounds, reload_ends,
}

module _ (s : Server) (r : IsRedis s) (l : Libraries s) (k : IsCjson l.cjson) (now : ℤ)
    (name j : String) (up : IsConnected l.client) where
  abbrev Back : s.Db → Type 0
  Back db = IsBack l.cjson j (observe name (r.view db))

  abbrev rounds : ℕ → ℕ → s.Db → Option (ℕ × Option Error) × s.Db
  rounds fuel total db =
      reload_rounds s l now name fuel (source_key timeout (new_keys name)) true total db

  abbrev batch : s.Db → ℕ × s.Db
  batch = script s r l now name timeout true up

  -- The further rounds leave it there.
  StaysBack : ℕ → Type 0
  StaysBack fuel =
      (total : ℕ) (db : s.Db) (n : ℕ) (db' : s.Db)
      → Back db
      → rounds fuel total db ≡ (some (n, none), db')
      → Back db'

  after_batch :
      (fuel : ℕ)
      → StaysBack fuel
      → (total : ℕ) (db : s.Db) (n : ℕ) (db' : s.Db) → Back (batch db).1
      → rounds (suc fuel) total db ≡ (some (n, none), db')
      → Back db'
  unfolding StaysBack
  after_batch fuel ih total db n db' back ends = elim (ℕ-cases (batch db).0) [
    | inl none_moved ↦
        let step : rounds (suc fuel) total db ≡ (some (total, none), (batch db).1) =
          rounds_step s r l now name timeout true up fuel total db ∙ rw none_moved refl in
        subst Back (ap (λ p. p.1) (sym step ∙ ends)) back
    | inr (m, some_moved) ↦
        let step : rounds (suc fuel) total db ≡ rounds fuel (total + suc m) (batch db).1 =
          rounds_step s r l now name timeout true up fuel total db ∙ rw some_moved refl in
        ih (total + suc m) (batch db).1 n db' back (sym step ∙ ends)
  ]

  stays_back : (fuel : ℕ) → StaysBack fuel
  unfolding StaysBack reload_rounds
  stays_back zero total db n db' back ends = ground (arith, ap (λ p. p.0) ends)
  stays_back (suc fuel) total db n db' back ends =
      after_batch fuel (stays_back fuel) total db n db'
        (subst (λ o. IsBack l.cjson j o)
          (sym (ap (λ p. p.1) (reload_refines s r l.cjson name now true timeout db)))
          (reload_spec-IsBack l.cjson j k now true timeout _ back))
        ends

forward_one_apart :
    (c : Cjson) (now : ℤ) (id : String) (o : Channel)
    → let o' = forward_one c now id o in (o'.reserved ≡ o.reserved) × (o'.timeout ≡ o.timeout)
unfolding forward_one
forward_one_apart c now id o = (ground arith, ground arith)

-- The moves of delayed messages touch neither reserved nor timeout.
forward_each_apart :
    (c : Cjson) (now : ℤ) (ids : List String) (o : Channel)
    → let o' = forward_each c now ids o in (o'.reserved ≡ o.reserved) × (o'.timeout ≡ o.timeout)
unfolding forward_each
forward_each_apart c now [] o = (refl, refl)
forward_each_apart c now (id ∷ ids) o =
    let (kept, kept') = forward_each_apart c now ids (forward_one c now id o) in
    let (first, first') = forward_one_apart c now id o in (kept ∙ first, kept' ∙ first')

module _ (c : Cjson) (k : IsCjson c) (now until : ℤ) (j : String) where
  -- After a round of the forwarder it is in timeout.
  forward_messages_spec-timeout :
      (o : Channel)
      → IsLeased j until o
      → leb_ℤ until now ≡ true
      → length o.reserved ≤ 100
      → is_live c (o.entity j) ≡ true
      → let o' = (forward_messages_spec c now o).1 in
        (1 ≤ count j o'.timeout)
        × (length o'.timeout ≤ length o.timeout + length o.reserved)
        × (is_live c (o'.entity j) ≡ true)
  unfolding forward_messages_spec forward_spec
  forward_messages_spec-timeout o held past few live =
      let then' = int64 (now +ℤ pos 1) in
      let ids = take 100 (due then' o.delayed) in
      let o1 = forward_each c then' ids o in
      let (same, same') = forward_each_apart c then' ids o in
      let alive : Alive c j o = (omega (arith, zcount-score j o.reserved until held), live) in
      let (there, short, kept) =
        expire_spec-timeout c j now until o1 (ap (score j) same ∙ held) past
          (omega (arith, few, ap length same)) (forward_each-Alive c k then' j ids o alive).1 in
      (there, omega (arith, short, ap length same, ap length same'), kept)

-- A message whose consumer never commits is handed out again: once its reservation has run out, one
-- round of `ForwardMessages` and then a `Reload` of timeout, which ends without an error, put it
-- back into waiting, still with a readable text that is not done, dropped or canceled. The server and
-- the JSON library of the scripts behave as documented, the server is reachable, and at most a hundred
-- messages are reserved or in timeout.
pub abandoned_returns :
    (s : Server) (r : IsRedis s) (l : Libraries s) (now later until : ℤ) (name j : String)
    (fuel : ℕ) (db : s.Db)
    → IsCjson l.cjson
    → IsConnected l.client
    → let before = observe name (r.view db) in
      IsLeased j until before
      → leb_ℤ until now ≡ true
      → is_live l.cjson (before.entity j) ≡ true
      → length before.timeout + length before.reserved ≤ 100
      → 100 < fuel
      → let db1 = (forward_messages s l now name db).1 in
        (n : ℕ) × (db2 : s.Db) × (reload s l later name fuel "timeout" db1 ≡ (some (n, none), db2))
        × IsBack l.cjson j (observe name (r.view db2))
abandoned_returns s r l now later until name j (suc fuel) db k up held past live few enough =
    let before = observe name (r.view db) in
    let db1 = (forward_messages s l now name db).1 in
    let refined : observe name (r.view db1) ≡ (forward_messages_spec l.cjson now before).1 =
      ap (λ p. p.1) (forward_messages_refines s r l now name db up) in
    let (there, short, kept) =
      forward_messages_spec-timeout l.cjson k now until j before held past (omega arith) live in
    let (n, db2, ends, fewer) =
      reload_ends s r l later name timeout (suc fuel) db1 up
        (omega (arith, short, ap (λ (o : Channel). length o.timeout) refined)) in
    (
      n,
      db2,
      ends,
      after_batch s r l k later name j up fuel (stays_back s r l k later name j up fuel) 0 db1 n db2
          (subst (λ o. IsBack l.cjson j o)
            (sym (ap (λ p. p.1) (reload_refines s r l.cjson name later true timeout db1)))
            (subst (λ (o : Channel). IsBack l.cjson j (reload_spec l.cjson later true timeout o).1)
              (sym refined)
              (reload_spec-recovers l.cjson j k later true _ there (omega (arith, short)) kept)))
          (sym (reload-rounds s l later name timeout (suc fuel) db1) ∙ ends),
    )
abandoned_returns s r l now later until name j zero db k up held past live few enough =
    absurd (omega arith)

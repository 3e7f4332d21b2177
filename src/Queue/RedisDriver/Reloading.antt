-- ===== src/Queue/RedisDriver/Reloading.antt =====
-- The loop of `Reload`: it ends, and what it leaves behind.
pub mod Recovery
use mathlib.Core.List.{reverse, reverse-reverse}
use mathlib.Core.Path.{subst}
use async_queue_go.Prelude.{
  ℕ, zero, suc, ◌+◌, ◌≤◌, ◌<◌, String, ◌≡◌, refl, sym, ap, ◌∙◌, Bool, true, false, List, [], ◌∷◌,
  ◌⊎◌, inl, inr, Option, none, some, arith, length, length-reverse, drop,
}
use async_queue_go.Prelude.Int.{ℤ}
use async_queue_go.Redis.Server.{Server}
use async_queue_go.Redis.Agreement.{IsRedis}
use async_queue_go.Queue.Keys.{new_keys}
use async_queue_go.Queue.Cjson.{Cjson}
use async_queue_go.Queue.Lua.Manage
use async_queue_go.Queue.Lua.Manage.{is_stale}
use async_queue_go.Redis.Keyspace.{remove}
use async_queue_go.Redis.Program.{on}
use async_queue_go.Queue.State.{Channel, observe}
use async_queue_go.Queue.State.Reload.{
  Source, timeout, failed, source_key, source_list, set_source, reload_one_spec, reload_from,
  reload_spec, reload_refines, source_list-one, source_list-set_source,
}
use async_queue_go.Queue.RedisDriver.{ok, Libraries, reload, reload_rounds, reloaded}
use async_queue_go.Queue.RedisDriver.Replies.{IsConnected}

ℕ-cases : (n : ℕ) → (n ≡ 0) ⊎ ((m : ℕ) × (n ≡ suc m))
ℕ-cases zero = inl refl
ℕ-cases (suc n) = inr (n, refl)

module _ (c : Cjson) (now : ℤ) (skip : Bool) (src : Source) where
  counted : (id : String) (o : Channel) → (reload_one_spec c now skip id o).0 ≤ 1
  unfolding reload_one_spec
  counted id o = ground arith

  -- What is counted was in the source, and is no longer there.
  reload_from_bound :
      (rounds : ℕ) (queue : List String) (count : ℕ) (o : Channel)
      → source_list src o ≡ reverse queue
      → let (total, o') = reload_from c now skip src rounds queue count o in
        total + length (source_list src o') ≤ count + length queue
  unfolding reload_from
  reload_from_bound zero queue count o h = omega (arith, ap length h, length-reverse queue)
  reload_from_bound (suc rounds) [] count o h = omega (arith, ap length h)
  reload_from_bound (suc rounds) (id ∷ younger) count o h =
      let o1 = set_source src (reverse younger) (record o { waiting = id ∷ o.waiting }) in
      let r = reload_one_spec c now skip id o1 in
      omega (
        arith,
        counted id o1,
        reload_from_bound rounds younger (count + r.0) r.1
            (source_list-one c now skip src id o1 ∙ source_list-set_source src (reverse younger) _),
      )

  reload_spec_bound :
      (o : Channel)
      → let (total, o') = reload_spec c now skip src o in
        total + length (source_list src o') ≤ length (source_list src o)
  unfolding reload_spec
  reload_spec_bound o = omega (
    arith,
    reload_from_bound 100 (reverse (source_list src o)) 0 o (sym (reverse-reverse _)),
    length-reverse (source_list src o),
  )

module _ (s : Server) (r : IsRedis s) (l : Libraries s) (now : ℤ) (name : String) (src : Source)
    (skip : Bool) (up : IsConnected l.client) where
  abbrev at : s.Db → Channel
  at db = observe name (r.view db)

  abbrev script : s.Db → ℕ × s.Db
  script =
      let k = new_keys name in
      Manage.reload s l.cjson (source_key src k) k.waiting k.message_prefix now skip

  script_bound :
      (db : s.Db)
      → (script db).0 + length (source_list src (at (script db).1))
        ≤ length (source_list src (at db))
  script_bound db = omega (
    arith,
    reload_spec_bound l.cjson now skip src (at db),
    ap (λ (p : ℕ × Channel). p.0) (reload_refines s r l.cjson name now skip src db),
    ap (λ (p : ℕ × Channel). length (source_list src p.1))
        (reload_refines s r l.cjson name now skip src db),
  )

  abbrev Ended : ℕ → ℕ → s.Db → Type 0
  Ended fuel total db =
      (n : ℕ) × (db' : s.Db) × (reload_rounds s l now name fuel (source_key src (new_keys name))
          skip total db
        ≡ (some (n, none), db'))
      × (n + length (source_list src (at db')) ≤ total + length (source_list src (at db)))

  rounds_step :
      (fuel total : ℕ) (db : s.Db)
      → reload_rounds s l now name (suc fuel) (source_key src (new_keys name)) skip total db
        ≡ reloaded s l now name
            (reload_rounds s l now name fuel (source_key src (new_keys name)) skip)
            total
            (ok (script db).0, (script db).1)
  unfolding reload_rounds
  rounds_step fuel total db = rw up refl

  rounds_end :
      (fuel total : ℕ) (db : s.Db) → length (source_list src (at db)) < fuel → Ended fuel total db
  rounds_end zero total db h = elim h [ ]
  rounds_end (suc fuel) total db h = elim (ℕ-cases (script db).0) [
    | inl none_moved ↦ (
      total,
      (script db).1,
      rounds_step fuel total db ∙ rw none_moved refl,
      omega (arith, script_bound db),
    )
    | inr (n, some_moved) ↦
        let (total', db', ends, fewer) =
          rounds_end fuel (total + suc n) (script db).1 (omega (arith, script_bound db)) in
        (
          total',
          db',
          rounds_step fuel total db ∙ rw some_moved ends,
          omega (arith, script_bound db),
        )
  ]

abbrev pub source_name : Source → String
source_name timeout = "timeout"
source_name failed = "failed"

-- Stale messages are skipped in timeout alone.
abbrev skips : Source → Bool
skips timeout = true
skips failed = false

reload-rounds :
    (s : Server) (l : Libraries s) (now : ℤ) (name : String) (src : Source) (fuel : ℕ) (db : s.Db)
    → reload s l now name fuel (source_name src) db
      ≡ reload_rounds s l now name fuel (source_key src (new_keys name)) (skips src) 0 db
unfolding reload
reload-rounds s l now name timeout fuel db = refl
reload-rounds s l now name failed fuel db = refl

-- On a server that behaves as documented and is reachable, the loop of a reload of timeout or failed
-- ends without an error, for any fuel above the length of the list; and the total that it reports is
-- at most the number of ids that it took out of that list.
pub reload_ends :
    (s : Server) (r : IsRedis s) (l : Libraries s) (now : ℤ) (name : String) (src : Source)
    (fuel : ℕ) (db : s.Db)
    → IsConnected l.client
    → length (source_list src (observe name (r.view db))) < fuel
    → (n : ℕ) × (db' : s.Db) × (reload s l now name fuel (source_name src) db
        ≡ (some (n, none), db'))
      × (n + length (source_list src (observe name (r.view db')))
          ≤ length (source_list src (observe name (r.view db))))
reload_ends s r l now name src fuel db up enough =
    let (n, db', ends, fewer) = rounds_end s r l now name src (skips src) up fuel 0 db enough in
    (n, db', reload-rounds s l now name src fuel db ∙ ends, omega arith)

module _ (c : Cjson) where
  -- A reload of timeout throws the message away.
  abbrev pub is_skipped : Option String → Bool
  is_skipped raw = on raw true λ text. on (c.decode text) true λ msg. is_stale (c.status msg)

  abbrev pub AllSkipped : ℕ → List String → (String → Option String) → Type 0
  AllSkipped zero queue entity = Unit
  AllSkipped (suc n) [] entity = Unit
  AllSkipped (suc n) (id ∷ queue) entity =
      (is_skipped (entity id) ≡ true) × AllSkipped n queue entity

  one_skipped :
      (now : ℤ) (id : String) (o : Channel)
      → is_skipped (o.entity id) ≡ true
      → reload_one_spec c now true id o ≡ (0, record o { waiting = remove id o.waiting })
  unfolding reload_one_spec
  one_skipped now id o h = ground arith

  reload_from_skipped :
      (now : ℤ) (rounds : ℕ) (queue : List String) (o : Channel)
      → o.timeout ≡ reverse queue
      → AllSkipped rounds queue o.entity
      → let (total, o') = reload_from c now true timeout rounds queue 0 o in
        (total ≡ 0) × (o'.timeout ≡ reverse (drop rounds queue))
  unfolding reload_from
  reload_from_skipped now zero queue o h k = (refl, h)
  reload_from_skipped now (suc rounds) [] o h k = (refl, h)
  reload_from_skipped now (suc rounds) (id ∷ younger) o h k =
      let o1 = record o { waiting = id ∷ o.waiting; timeout = reverse younger } in
      let Stopped = λ (p : ℕ × Channel).
        let (total, o') = reload_from c now true timeout rounds younger (0 + p.0) p.1 in
        (total ≡ 0) × (o'.timeout ≡ reverse (drop rounds younger)) in
      subst Stopped (sym (one_skipped now id o1 k.0)) (
        reload_from_skipped now rounds younger (record o1 { waiting = remove id o1.waiting }) refl
          k.1)

  reload_spec_skipped :
      (now : ℤ) (o : Channel)
      → AllSkipped 100 (reverse o.timeout) o.entity
      → let (total, o') = reload_spec c now true timeout o in
        (total ≡ 0) × (o'.timeout ≡ reverse (drop 100 (reverse o.timeout)))
  unfolding reload_spec
  reload_spec_skipped now o k =
      reload_from_skipped now 100 (reverse o.timeout) o (sym (reverse-reverse o.timeout)) k

-- On such a server, if the hundred oldest ids of timeout are all stale or without a readable text, a
-- reload takes them out and stops with a total of 0: the ids behind them stay in timeout.
pub reload_stops_at_stale :
    (s : Server) (r : IsRedis s) (l : Libraries s) (now : ℤ) (name : String) (fuel : ℕ) (db : s.Db)
    → IsConnected l.client
    → let before = observe name (r.view db) in
      AllSkipped l.cjson 100 (reverse before.timeout) before.entity
      → (db' : s.Db) × (reload s l now name (suc fuel) "timeout" db ≡ (some (0, none), db'))
        × ((observe name (r.view db')).timeout ≡ reverse (drop 100 (reverse before.timeout)))
reload_stops_at_stale s r l now name fuel db up stale =
    let refined = reload_refines s r l.cjson name now true timeout db in
    let (nothing, rest) = reload_spec_skipped l.cjson now (observe name (r.view db)) stale in
    (
      (script s r l now name timeout true up db).1,
      reload-rounds s l now name timeout (suc fuel) db
          ∙ rounds_step s r l now name timeout true up fuel 0 db
          ∙ rw (ap (λ p. p.0) refined ∙ nothing) refl,
      ap (λ p. p.1.timeout) refined ∙ rest,
    )

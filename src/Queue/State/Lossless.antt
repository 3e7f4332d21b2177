-- ===== src/Queue/State/Lossless.antt =====
-- No sequence of runs of the scripts of pkg/queue/lua.go loses a message that is not ended.
use mathlib.Core.List.{reverse}
use mathlib.Core.Path.{subst}
use async_queue_go.Prelude.Tests.{by_test}
use async_queue_go.Prelude.{
  ℕ, zero, suc, ◌+◌, ◌≤◌, String, ◌≡◌, refl, sym, ap, ◌∙◌, Bool, true, false, ◌&&◌, List, [], ◌∷◌,
  Option, some, arith, if◌then◌else◌, str_eq, eq_iff, Bool-cases, Option-cases, inl, inr,
}
use async_queue_go.Prelude.Int.{ℤ}
use async_queue_go.Redis.Keyspace.{count, is_some}
use async_queue_go.Redis.Server.{Server}
use async_queue_go.Redis.Agreement.{IsRedis}
use async_queue_go.Core.Message.{Status}
use async_queue_go.Queue.Cjson.{Cjson, IsCjson}
use async_queue_go.Queue.Lua.Manage.{is_stale}
use async_queue_go.Queue.State.{Channel}
use async_queue_go.Queue.State.Forward.{
  forward_one, forward_each, forward_spec, forward_refines, expire_one, expire_each, expire_spec,
  expire_refines,
}
use async_queue_go.Queue.State.Reload.{
  Source, source_list, set_source, reload_one_spec, reload_from, reload_spec, reload_refines,
  source_list-one, source_list-set_source,
}
use async_queue_go.Queue.State.Counts.{total, count-reverse, count-remove, total-moved}
use async_queue_go.Queue.State.Alive.{
  Alive, is_live, live-mark_entity, forward_one-Alive, expire_one-Alive, pop_spec-Alive,
  commit_spec-Alive, fail_spec-Alive, requeue_spec-Alive, cancel_spec-Alive,
}
use async_queue_go.Queue.State.Alive.Enqueue.{push-Alive, retry_spec-Alive}
use async_queue_go.Queue.State.Exclusive.{
  at, Step, pushed, popped, acked, dropped, failed, requeued, retried, forwarded, expired, canceled,
  reloaded, Reaches, here, next,
}
use async_queue_go.Queue.State.Commit.{commits_refine}
use async_queue_go.Queue.State.Enqueue.{push_refines}
use async_queue_go.Queue.State.Retry.{retry_refines}
use async_queue_go.Queue.State.Claim.{pop_refines}
use async_queue_go.Queue.State.Cancel.{cancel_refines}

pub entity-set_source :
    (src : Source) (l : List String) (o : Channel) → (set_source src l o).entity ≡ o.entity
entity-set_source Source.timeout l o = refl
entity-set_source Source.failed l o = refl

module _ (c : Cjson) (k : IsCjson c) (now : ℤ) (j : String) where
  pub forward_each-Alive :
      (ids : List String) (o : Channel) → Alive c j o → Alive c j (forward_each c now ids o)
  unfolding forward_each
  forward_each-Alive [] o a = a
  forward_each-Alive (id ∷ ids) o a =
      forward_each-Alive ids (forward_one c now id o) (forward_one-Alive c k now j id o a)

  expire_each-Alive :
      (n : ℕ) (ids : List String) (o : Channel) → Alive c j o → Alive c j (expire_each n ids o).1
  unfolding expire_each
  expire_each-Alive n [] o a = a
  expire_each-Alive n (id ∷ ids) o a =
      expire_each-Alive (if is_some (o.entity id) then n + 1 else n) ids (expire_one id o)
        (expire_one-Alive c j id o a)

  module _ (skip : Bool) where
    total-reload_one_spec :
        (id : String) (o : Channel) → Alive c j o → 1 ≤ total j (reload_one_spec c now skip id o).1
    unfolding reload_one_spec
    total-reload_one_spec id o (held, live) = elim (Bool-cases (str_eq id j)) [
      | inl e ↦ ground (arith, held, ap (λ x. is_live c (o.entity x)) ((eq_iff id j).0 e) ∙ live)
      | inr e ↦ ground (arith, count-remove id j o.waiting)
    ]

    pub live-reload_one_spec :
        (id : String) (o : Channel)
        → is_live c (o.entity j) ≡ true
        → is_live c ((reload_one_spec c now skip id o).1.entity j) ≡ true
    unfolding reload_one_spec
    live-reload_one_spec id o live = elim (Option-cases (o.entity id)) [
      | inl e ↦ rw e live
      | inr (text, e) ↦ elim (Option-cases (c.decode text)) [
        | inl f ↦ rw e (rw f live)
        | inr (t, f) ↦ rw e (
            rw f (
              by_test {A = ℕ × Channel} (λ p. is_live c (p.1.entity j) ≡ true)
                (skip && is_stale (c.status t)) _ _ (λ stale. live)
                (λ fresh. live-mark_entity c k now Status.waiting id j o.entity (tt, refl) live)))
      ]
    ]

    reload_from-Alive :
        (src : Source) (rounds : ℕ) (queue : List String) (n : ℕ) (o : Channel)
        → count j (source_list src o) ≡ count j queue
        → Alive c j o
        → Alive c j (reload_from c now skip src rounds queue n o).1
    unfolding reload_from count
    reload_from-Alive src zero queue n o h a = a
    reload_from-Alive src (suc rounds) [] n o h a = a
    reload_from-Alive src (suc rounds) (id ∷ younger) n o h (held, live) =
        let o1 = set_source src (reverse younger) (record o { waiting = id ∷ o.waiting }) in
        let r = reload_one_spec c now skip id o1 in
        let moved : Alive c j o1 = (
          omega (arith, held, total-moved c now skip src j src id younger o h),
          subst (λ (e : String → Option String). is_live c (e j) ≡ true)
              (sym
                (entity-set_source src (reverse younger) (record o { waiting = id ∷ o.waiting })))
              live,
        ) in
        reload_from-Alive src rounds younger (n + r.0) r.1
          (ap (count j) (
              source_list-one c now skip src id o1 ∙ source_list-set_source src (reverse younger) _)
            ∙ count-reverse j younger)
          (total-reload_one_spec id o1 moved, live-reload_one_spec id o1 moved.1)

    reload_spec-Alive :
        (src : Source) (o : Channel) → Alive c j o → Alive c j (reload_spec c now skip src o).1
    unfolding reload_spec
    reload_spec-Alive src o =
        reload_from-Alive src 100 (reverse (source_list src o)) 0 o
          (sym (count-reverse j (source_list src o)))

module _ (s : Server) (c : Cjson) (r : IsRedis s) (k : IsCjson c) (name j : String) where
  abbrev Held : s.Db → Type 0
  Held db = Alive c j (at s c r name db)

  -- The run neither ends message `j` nor stores an unreadable text for it: a commit that ends one, and a
  -- cancel, are of other messages, and what is pushed or retried has a live text if it is `j`.
  abbrev pub Spares : {db db' : s.Db} → Step s c r name db db' → Type 0
  Spares (pushed mode score ttl id raw new e) = (str_eq id j ≡ true) → is_live c (some raw) ≡ true
  Spares (retried mode score id raw e) = (str_eq id j ≡ true) → is_live c (some raw) ≡ true
  Spares (acked id now e) = str_eq id j ≡ false
  Spares (dropped id now e) = str_eq id j ≡ false
  Spares (canceled id now e) = str_eq id j ≡ false
  Spares _ = Unit {0}

  abbrev pub AllSpare : {db db' : s.Db} → Reaches s c r name db db' → Type 0
  AllSpare here = Unit {0}
  AllSpare (next steps step) = AllSpare steps × Spares step

  after : (db' d : s.Db) (o : Channel) → db' ≡ d → at s c r name d ≡ o → Alive c j o → Held db'
  after db' d o e f h = subst (λ x. Held x) (sym e) (subst (λ (x : Channel). Alive c j x) (sym f) h)

  Step-Alive : {db db' : s.Db} (step : Step s c r name db db') → Spares step → Held db → Held db'
  unfolding forward_spec expire_spec
  Step-Alive {db} {db'} (pushed mode score ttl id raw new e) fresh h =
      after db' _ _ e (push_refines s r name id raw mode score ttl db)
        (push-Alive c j mode score id raw _ fresh (λ other. h))
  Step-Alive {db} {db'} (popped now deadline e) p h =
      after db' _ _ e (ap (λ p. p.1) (pop_refines s r c name now deadline db))
        (pop_spec-Alive c k now j deadline _ h)
  Step-Alive {db} {db'} (acked id now e) other h =
      after db' _ _ e (commits_refine s r c name id now db).0
        (commit_spec-Alive c k now j Status.done id _ other h)
  Step-Alive {db} {db'} (dropped id now e) other h =
      after db' _ _ e (commits_refine s r c name id now db).1
        (commit_spec-Alive c k now j Status.dropped id _ other h)
  Step-Alive {db} {db'} (failed id now held e) p h =
      after db' _ _ e (commits_refine s r c name id now db).2 (fail_spec-Alive c k now j id _ h)
  Step-Alive {db} {db'} (requeued id now held e) p h =
      after db' _ _ e (commits_refine s r c name id now db).3 (requeue_spec-Alive c k now j id _ h)
  Step-Alive {db} {db'} (retried mode score id raw e) fresh h =
      after db' _ _ e (ap (λ p. p.1) (retry_refines s r name id raw mode score db))
        (retry_spec-Alive c j mode score id raw _ fresh h)
  Step-Alive {db} {db'} (forwarded now e) p h =
      after db' _ _ e (ap (λ p. p.1) (forward_refines s r c name now db))
        (forward_each-Alive c k now j _ _ h)
  Step-Alive {db} {db'} (expired now e) p h =
      after db' _ _ e (ap (λ p. p.1) (expire_refines s r name now db))
        (expire_each-Alive c k now j 0 _ _ h)
  Step-Alive {db} {db'} (canceled id now e) other h =
      after db' _ _ e (ap (λ p. p.1) (cancel_refines s r c name now id db))
        (cancel_spec-Alive c k now j id _ other h)
  Step-Alive {db} {db'} (reloaded src skip_stale now e) p h =
      after db' _ _ e (ap (λ p. p.1) (reload_refines s r c name now skip_stale src db))
        (reload_spec-Alive c k now j skip_stale src _ h)

  -- No message is lost: one that stands in a bucket, with a readable text whose status is not done,
  -- dropped or canceled, still does so, with such a text, after any runs of the scripts, by any
  -- clients and in any order, for as long as it is not acknowledged, dropped or canceled, and what
  -- is retried under its id has such a text too. The server and the JSON library of the scripts behave
  -- as documented, only new ids are pushed, a message is failed or requeued only while it is
  -- reserved, no text runs out of its time to live, and no bucket is flushed.
  pub Reaches-Alive :
      {db db' : s.Db}
      → Alive c j (at s c r name db)
      → (steps : Reaches s c r name db db') → AllSpare steps
      → Alive c j (at s c r name db')
  Reaches-Alive h here spare = h
  Reaches-Alive h (next steps step) (spare, last) =
      Step-Alive step last (Reaches-Alive h steps spare)

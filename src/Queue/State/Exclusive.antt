-- ===== src/Queue/State/Exclusive.antt =====
-- Which runs of the scripts of pkg/queue/lua.go keep a message in one place, and which do not.
use mathlib.Core.Path.{subst}
use text.Mathlib.TextPositions.{eq_refl}
use async_queue_go.Prelude.{
  ℕ, ◌+◌, ◌≤◌, String, ◌≡◌, refl, sym, ap, Bool, true, List, [], ◌∷◌, arith, if◌then◌else◌, eq_iff,
  take, if◌then◌else◌,
}
use async_queue_go.Prelude.Int.{ℤ}
use async_queue_go.Redis.Keyspace.{count, due, zcount, is_some}
use async_queue_go.Redis.Server.{Server}
use async_queue_go.Redis.Agreement.{IsRedis}
use async_queue_go.Core.Message.{Status}
use async_queue_go.Queue.Keys.{new_keys, message}
use async_queue_go.Queue.Cjson.{Cjson}
use async_queue_go.Queue.Lua.Commit.{Mode, push, ack, fail, drop, requeue}
use async_queue_go.Queue.Lua.Move.{pop, move, move_timeout}
use async_queue_go.Queue.Lua.Manage.{retry_by_id, cancel_by_id, reload}
use async_queue_go.Queue.State.{Channel, observe, is_readable}
use async_queue_go.Queue.State.Commit.{requeue_spec, fail_spec, commits_refine}
use async_queue_go.Queue.State.Enqueue.{push_refines}
use async_queue_go.Queue.State.Retry.{retry_refines}
use async_queue_go.Queue.State.Claim.{pop_refines}
use async_queue_go.Queue.State.Forward.{
  forward_one, forward_each, forward_spec, forward_refines, expire_one, expire_each, expire_spec,
  expire_refines,
}
use async_queue_go.Queue.State.Cancel.{cancel_refines}
use async_queue_go.Queue.State.Reload.{Source, source_key, reload_refines}
use async_queue_go.Queue.State.Counts.{
  total, IsExclusive, same, count-due, count-take, total-commit_spec, total-fail_spec,
  total-requeue_spec, total-cancel_spec, total-push_spec, total-retry_spec, total-pop_spec,
  total-reload_spec, total-forward_one, delayed-forward_one, total-expire_one, reserved-expire_one,
}

-- Each id is a member as often as it is listed.
abbrev Covers : List String → List (String × ℤ) → Type 0
Covers ids z = (j : String) → count j ids ≤ zcount j z

-- An id that is listed first, of which there is one at most, is not listed again.
covered :
    (id : String) (ids : List String) (n : ℕ)
    → count id (id ∷ ids) ≤ n
    → n ≤ 1
    → (1 ≤ n) × (count id ids ≡ 0)
unfolding count
covered id ids n h k = ground (arith, (eq_iff id id).1 refl)

count_le-cons : (j id : String) (ids : List String) → count j ids ≤ count j (id ∷ ids)
unfolding count
count_le-cons j id ids = ground arith

module _ (c : Cjson) (now : ℤ) where
  forward_each-IsExclusive :
      (ids : List String) (o : Channel)
      → Covers ids o.delayed
      → IsExclusive o
      → IsExclusive (forward_each c now ids o)
  unfolding forward_each
  forward_each-IsExclusive [] o h e = e
  forward_each-IsExclusive (id ∷ ids) o h e =
      let (present, once) = covered id ids (zcount id o.delayed) (h id) (omega (arith, e id)) in
      forward_each-IsExclusive ids (forward_one c now id o)
        (λ j. ground (
          arith,
          delayed-forward_one c now id o j,
          count_le-cons j id ids,
          h j,
          same id j (λ x. count x ids),
        ))
        (λ j. omega (arith, total-forward_one c now id o j present, e j))

expire_each-IsExclusive :
    (n : ℕ) (ids : List String) (o : Channel)
    → Covers ids o.reserved
    → IsExclusive o
    → IsExclusive (expire_each n ids o).1
unfolding expire_each
expire_each-IsExclusive n [] o h e = e
expire_each-IsExclusive n (id ∷ ids) o h e =
    let (present, once) = covered id ids (zcount id o.reserved) (h id) (omega (arith, e id)) in
    expire_each-IsExclusive (if is_some (o.entity id) then n + 1 else n) ids (expire_one id o)
      (λ j. ground (
        arith,
        reserved-expire_one id o j,
        count_le-cons j id ids,
        h j,
        same id j (λ x. count x ids),
      ))
      (λ j. omega (arith, total-expire_one id o j present, e j))

module _ (s : Server) (c : Cjson) (r : IsRedis s) (name : String) where
  abbrev pub at : s.Db → Channel
  at db = observe name (r.view db)

  -- One run of a script. Only a new id is pushed, and a message is failed or requeued only while it
  -- is reserved.
  pub data Step (db db' : s.Db) : Type 0 where
    pushed :
        (mode : Mode) (score ttl : ℤ) (id raw : String)
        → total id (at db) ≡ 0
        → db'
          ≡ (let k = new_keys name in
              push s k.waiting k.delayed (message k id) id raw mode score ttl db).1
        → Step db db'
    popped :
        (now deadline : ℤ)
        → db'
          ≡ (let k = new_keys name in
              pop s c k.waiting k.reserved k.message_prefix now deadline db).1
        → Step db db'
    acked :
        (id : String) (now : ℤ)
        → db' ≡ (let k = new_keys name in ack s c k.reserved (message k id) id now db).1
        → Step db db'
    dropped :
        (id : String) (now : ℤ)
        → db' ≡ (let k = new_keys name in drop s c k.reserved (message k id) id now db).1
        → Step db db'
    failed :
        (id : String) (now : ℤ)
        → 1 ≤ zcount id (at db).reserved
        → db' ≡ (let k = new_keys name in fail s c k.reserved k.failed (message k id) id now db).1
        → Step db db'
    requeued :
        (id : String) (now : ℤ)
        → 1 ≤ zcount id (at db).reserved
        → db'
          ≡ (let k = new_keys name in requeue s c k.reserved k.waiting (message k id) id now db).1
        → Step db db'
    retried :
        (mode : Mode) (score : ℤ) (id raw : String)
        → db' ≡ (let k = new_keys name in retry_by_id s k (message k id) id score raw mode db).1
        → Step db db'
    forwarded :
        (now : ℤ)
        → db'
          ≡ (let k = new_keys name in
              move s c k.delayed k.waiting k.message_prefix now Status.waiting db).1
        → Step db db'
    expired :
        (now : ℤ)
        → db'
          ≡ (let k = new_keys name in move_timeout s k.reserved k.timeout k.message_prefix now db).1
        → Step db db'
    canceled :
        (id : String) (now : ℤ)
        → db'
          ≡ (let k = new_keys name in
              cancel_by_id s c k.waiting k.reserved k.delayed (message k id) id now db).1
        → Step db db'
    reloaded :
        (src : Source) (skip_stale : Bool) (now : ℤ)
        → db'
          ≡ (let k = new_keys name in
              reload s c (source_key src k) k.waiting k.message_prefix now skip_stale db).1
        → Step db db'

  -- Any number of runs, by any clients, in any order.
  pub data Reaches (db : s.Db) : s.Db → Type 0 where
    here : Reaches db db
    next : {db1 db2 : s.Db} → Reaches db db1 → Step db1 db2 → Reaches db db2

  -- What is shown of the specification holds of the state that the script leaves.
  after : (db' d : s.Db) (o : Channel) → db' ≡ d → at d ≡ o → IsExclusive o → IsExclusive (at db')
  after db' d o e f h =
      subst (λ x. IsExclusive (at x)) (sym e) (subst (λ x. IsExclusive x) (sym f) h)

  abbrev state : {A : Type 0} → A × Channel → Channel
  state p = p.1

  Covers-due : (now : ℤ) (z : List (String × ℤ)) → Covers (take 100 (due now z)) z
  Covers-due now z j = omega (arith, count-take j 100 (due now z), count-due j now z)

  pub Step-IsExclusive : {db db' : s.Db} → Step db db' → IsExclusive (at db) → IsExclusive (at db')
  unfolding forward_spec expire_spec
  Step-IsExclusive {db} {db'} (pushed mode score ttl id raw new e) h =
      after db' _ _ e (push_refines s r name id raw mode score ttl db) λ j.
        ground (
          arith,
          total-push_spec score id raw mode (at db) j,
          h j,
          same id j (λ x. total x (at db)),
        )
  Step-IsExclusive {db} {db'} (popped now deadline e) h =
      after db' _ _ e (ap state (pop_refines s r c name now deadline db))
        λ j. omega (arith, total-pop_spec c now deadline j (at db), h j)
  Step-IsExclusive {db} {db'} (acked id now e) h =
      after db' _ _ e (commits_refine s r c name id now db).0
        λ j. omega (arith, total-commit_spec c now id (at db) j Status.done, h j)
  Step-IsExclusive {db} {db'} (dropped id now e) h =
      after db' _ _ e (commits_refine s r c name id now db).1
        λ j. omega (arith, total-commit_spec c now id (at db) j Status.dropped, h j)
  Step-IsExclusive {db} {db'} (failed id now held e) h =
      after db' _ _ e (commits_refine s r c name id now db).2
        λ j. omega (arith, total-fail_spec c now id (at db) j held, h j)
  Step-IsExclusive {db} {db'} (requeued id now held e) h =
      after db' _ _ e (commits_refine s r c name id now db).3
        λ j. omega (arith, total-requeue_spec c now id (at db) j held, h j)
  Step-IsExclusive {db} {db'} (retried mode score id raw e) h =
      after db' _ _ e (ap state (retry_refines s r name id raw mode score db))
        λ j. total-retry_spec score id raw mode (at db) j (h j) (h id)
  Step-IsExclusive {db} {db'} (forwarded now e) h =
      after db' _ _ e (ap state (forward_refines s r c name now db)) (
        forward_each-IsExclusive c now (take 100 (due now (at db).delayed)) (at db)
          (Covers-due now (at db).delayed) h)
  Step-IsExclusive {db} {db'} (expired now e) h =
      after db' _ _ e (ap state (expire_refines s r name now db)) (
        expire_each-IsExclusive 0 (take 100 (due now (at db).reserved)) (at db)
          (Covers-due now (at db).reserved) h)
  Step-IsExclusive {db} {db'} (canceled id now e) h =
      after db' _ _ e (ap state (cancel_refines s r c name now id db))
        λ j. omega (arith, total-cancel_spec c now id (at db) j, h j)
  Step-IsExclusive {db} {db'} (reloaded src skip_stale now e) h =
      after db' _ _ e (ap state (reload_refines s r c name now skip_stale src db))
        λ j. omega (arith, total-reload_spec c now skip_stale src j (at db), h j)

  -- However the scripts of a channel are run, by producers, consumers, forwarders and operators, a
  -- message stays in at most one of the five buckets, and once, if it was so at first: provided that
  -- the server behaves as documented, that only new ids are pushed, and that a message is failed or
  -- requeued only while it is reserved.
  pub Reaches-IsExclusive :
      {db db' : s.Db} → IsExclusive (at db) → Reaches db db' → IsExclusive (at db')
  Reaches-IsExclusive h here = h
  Reaches-IsExclusive h (next steps step) = Step-IsExclusive step (Reaches-IsExclusive h steps)

-- One id more in this bucket, and still once in timeout.
abbrev pub Doubled : String → (Channel → List String) → Channel → Channel → Type 0
Doubled id bucket before after =
    (count id (bucket after) ≡ count id (bucket before) + 1)
    × (count id after.timeout ≡ 1)
    × (2 ≤ total id after)

-- The last condition is needed, and the scripts do not see to it, on a server that behaves as
-- documented: if a reservation has run out and the message, still readable, stands in timeout, a late requeue by the first consumer puts it into
-- waiting once more, and a late failure puts it into failed once more, while it stays in timeout, once,
-- too.
pub late_commit_duplicates :
    (s : Server) (c : Cjson) (r : IsRedis s) (name id : String) (now : ℤ) (db : s.Db)
    → let before = observe name (r.view db) in
      zcount id before.reserved ≡ 0
      → count id before.timeout ≡ 1
      → is_readable c (before.entity id) ≡ true
      → let k = new_keys name in
        Doubled id
          (λ o. o.waiting)
          before
          (observe name (r.view (requeue s c k.reserved k.waiting (message k id) id now db).1))
        × Doubled id
            (λ o. o.failed)
            before
            (observe name (r.view (fail s c k.reserved k.failed (message k id) id now db).1))
unfolding requeue_spec fail_spec count
late_commit_duplicates s c r name id now db free once readable =
    let before = observe name (r.view db) in
    let refined = commits_refine s r c name id now db in
    (
      subst (λ o. Doubled id (λ (x : Channel). x.waiting) before o) (sym refined.3)
          (ground (arith, eq_refl id), ground arith, ground (arith, eq_refl id)),
      subst (λ o. Doubled id (λ (x : Channel). x.failed) before o) (sym refined.2)
          (ground (arith, eq_refl id), ground arith, ground (arith, eq_refl id)),
    )

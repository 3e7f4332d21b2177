-- ===== src/Queue/State/Place.antt =====
-- Where a message stands, and what the specifications of the scripts of pkg/queue/lua.go do to that:
-- the buckets of the state transition matrix in docs/guide.md.
pub mod Rounds
pub mod Timeouts
pub mod Reloads
use mathlib.Core.Path.{subst}
use text.Mathlib.TextPositions.{eq_refl}
use async_queue_go.Prelude.{
  ℕ, zero, suc, ◌+◌, ◌≤◌, String, ◌≡◌, refl, sym, ap, ◌∙◌, Bool, true, false, List, [], ◌∷◌, ◌⊎◌,
  Option, none, some, arith, if◌then◌else◌, str_eq, eq_iff, ltb, ◌==◌, Bool-cases, inl, inr,
}
use async_queue_go.Prelude.Tests.{by_test}
use async_queue_go.Prelude.Int.{ℤ}
use async_queue_go.Redis.Keyspace.{count, zcount, zremove, zinsert}
use async_queue_go.Core.Message.{Status}
use async_queue_go.Queue.Cjson.{Cjson}
use async_queue_go.Queue.Lua.Commit.{Mode, to_waiting, to_delayed}
use async_queue_go.Queue.State.{Channel, is_readable}
use async_queue_go.Queue.State.Commit.{commit_spec, fail_spec, requeue_spec}
use async_queue_go.Queue.State.Enqueue.{push_spec}
use async_queue_go.Queue.State.Retry.{retry_spec, places}
use async_queue_go.Queue.State.Cancel.{cancel_spec}
use async_queue_go.Queue.State.Counts.{total, same, zcount-zremove, zcount-zinsert, count-remove}

pub data Place : Type 0 where
  waiting reserved delayed timeout failed nowhere : Place

-- The counts of an id in the five buckets, and its text.
abbrev pub View : Type 0
View = ℕ × ℕ × ℕ × ℕ × ℕ × Option String

abbrev pub view : String → Channel → View
view j o = (
  count j o.waiting,
  zcount j o.reserved,
  zcount j o.delayed,
  count j o.timeout,
  count j o.failed,
  o.entity j,
)

abbrev pub place_of : View → Place
place_of (w, r, d, t, f, e) =
    if ltb 0 w
    then waiting
    else if ltb 0 r
    then reserved
    else if ltb 0 d
    then delayed
    else if ltb 0 t
    then timeout
    else if ltb 0 f
    then failed
    else nowhere

abbrev pub place : String → Channel → Place
place j o = place_of (view j o)

-- It stays where it is, or goes along one row.
abbrev pub Moved : String → Place × Place → Channel → Channel → Type 0
Moved j row o o' = (place j o' ≡ place j o) ⊎ ((place j o, place j o') ≡ row)

-- The row of a script that is given an id: any other message stays.
abbrev pub own : String → String → Place × Place → Place × Place
own j id row = if str_eq id j then row else (nowhere, nowhere)

pub view_eq :
    {w w' r r' d d' t t' f f' : ℕ} {e e' : Option String}
    → w ≡ w'
    → r ≡ r'
    → d ≡ d'
    → t ≡ t'
    → f ≡ f'
    → e ≡ e'
    → ◌≡◌ {A = View} (w, r, d, t, f, e) (w', r', d', t', f', e')
view_eq w r d t f e = λ i. (w i, r i, d i, t i, f i, e i)

module _ (c : Cjson) (now : ℤ) (j : String) where
  pub commit_spec-Moved :
      (st : Status) (id : String) (o : Channel)
      → total j o ≤ 1
      → Moved j (own j id (reserved, nowhere)) o (commit_spec c st now id o)
  unfolding commit_spec
  commit_spec-Moved st id o once = elim (Bool-cases (str_eq id j)) [
    | inl e ↦ elim (Bool-cases (ltb 0 (zcount j o.reserved))) [
      | inl held ↦ inr (ground (arith, zcount-zremove id j o.reserved))
      | inr free ↦ inl (ground (arith, zcount-zremove id j o.reserved))
    ]
    | inr e ↦ inl (ground (arith, zcount-zremove id j o.reserved))
  ]

  -- What is failed or requeued is reserved, and its text can be read.
  pub fail_spec-Moved :
      (id : String) (o : Channel)
      → total j o ≤ 1
      → 1 ≤ zcount id o.reserved
      → is_readable c (o.entity id) ≡ true
      → Moved j (own j id (reserved, failed)) o (fail_spec c now id o)
  unfolding fail_spec count
  fail_spec-Moved id o once held read = elim (Bool-cases (str_eq id j)) [
    | inl e ↦
        inr (ground (arith, zcount-zremove id j o.reserved, same id j (λ x. zcount x o.reserved)))
    | inr e ↦ inl (ground (arith, zcount-zremove id j o.reserved))
  ]

  pub requeue_spec-Moved :
      (id : String) (o : Channel)
      → total j o ≤ 1
      → 1 ≤ zcount id o.reserved
      → is_readable c (o.entity id) ≡ true
      → Moved j (own j id (reserved, waiting)) o (requeue_spec c now id o)
  unfolding requeue_spec count
  requeue_spec-Moved id o once held read = elim (Bool-cases (str_eq id j)) [
    | inl e ↦
        inr (ground (arith, zcount-zremove id j o.reserved, same id j (λ x. zcount x o.reserved)))
    | inr e ↦ inl (ground (arith, zcount-zremove id j o.reserved))
  ]

  pub cancel_spec-Moved :
      (id : String) (o : Channel)
      → total j o ≤ 1
      → Moved j (own j id (delayed, nowhere)) o (cancel_spec c now id o).1
  unfolding cancel_spec
  cancel_spec-Moved id o once = elim (Bool-cases (str_eq id j)) [
    | inl e ↦ elim (Bool-cases (ltb 0 (zcount j o.delayed))) [
      | inl held ↦
          inr (ground (arith, zcount-zremove id j o.delayed, same id j (λ x. zcount x o.delayed)))
      | inr free ↦
          inl (ground (arith, zcount-zremove id j o.delayed, same id j (λ x. zcount x o.delayed)))
    ]
    | inr e ↦ inl (ground (arith, zcount-zremove id j o.delayed))
  ]

-- The bucket that a mode names.
abbrev pub bucket_of : Mode → Place
bucket_of to_waiting = waiting
bucket_of to_delayed = delayed

module _ (j : String) where
  pub push_spec-Moved :
      (mode : Mode) (score : ℤ) (id raw : String) (o : Channel)
      → total j o ≤ 1
      → total id o ≡ 0
      → Moved j (own j id (nowhere, bucket_of mode)) o (push_spec mode score id raw o)
  unfolding push_spec count
  push_spec-Moved to_waiting score id raw o once new = elim (Bool-cases (str_eq id j)) [
    | inl e ↦ inr (ground (arith, same id j (λ x. total x o)))
    | inr e ↦ inl (ground arith)
  ]
  push_spec-Moved to_delayed score id raw o once new = elim (Bool-cases (str_eq id j)) [
    | inl e ↦ inr (
        ground (
          arith,
          same id j (λ x. total x o),
          zcount-zinsert id j score (zremove id o.delayed),
          zcount-zremove id j o.delayed,
        ))
    | inr e ↦ inl (
        ground
          (arith, zcount-zinsert id j score (zremove id o.delayed), zcount-zremove id j o.delayed))
  ]

  reserved-Moved :
      (mode : Mode) (score : ℤ) (id raw : String) (o : Channel)
      → total j o ≤ 1
      → 1 ≤ zcount id o.reserved
      → Moved j
          (own j id (reserved, bucket_of mode))
          o
          (push_spec mode score id raw (record o { reserved = zremove id o.reserved }))
  unfolding push_spec count
  reserved-Moved to_waiting score id raw o once held = elim (Bool-cases (str_eq id j)) [
    | inl e ↦
        inr (ground (arith, zcount-zremove id j o.reserved, same id j (λ x. zcount x o.reserved)))
    | inr e ↦ inl (ground (arith, zcount-zremove id j o.reserved))
  ]
  reserved-Moved to_delayed score id raw o once held = elim (Bool-cases (str_eq id j)) [
    | inl e ↦ inr (
        ground (
          arith,
          zcount-zremove id j o.reserved,
          same id j (λ x. zcount x o.reserved),
          zcount-zinsert id j score (zremove id o.delayed),
          zcount-zremove id j o.delayed,
        ))
    | inr e ↦ inl (
        ground (
          arith,
          zcount-zremove id j o.reserved,
          zcount-zinsert id j score (zremove id o.delayed),
          zcount-zremove id j o.delayed,
        ))
  ]

  -- A retry of a reserved message.
  pub retry_spec-Moved :
      (mode : Mode) (score : ℤ) (id raw : String) (o : Channel)
      → total j o ≤ 1
      → 1 ≤ zcount id o.reserved
      → Moved j (own j id (reserved, bucket_of mode)) o (retry_spec mode score id raw o).1
  unfolding retry_spec
  retry_spec-Moved mode score id raw o once held =
      by_test {A = Bool × Channel} (λ p. Moved j (own j id (reserved, bucket_of mode)) o p.1)
        (ltb 0 (zcount id o.reserved)) _ _ (λ is_held. reserved-Moved mode score id raw o once held)
        (λ free. ground (arith, held, free))

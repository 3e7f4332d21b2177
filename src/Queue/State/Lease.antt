-- ===== src/Queue/State/Lease.antt =====
-- A reservation that has not run out, on a channel's state, and the claim that makes it.
pub mod Kept
use mathlib.Core.List.{reverse}
use mathlib.Core.Path.{subst}
use async_queue_go.Prelude.Tests.{by_test}
use async_queue_go.Prelude.{
  ℕ, zero, suc, ◌+◌, ◌≤◌, String, ◌≡◌, ◌≢◌, refl, ◌∙◌, Bool, true, false, List, [], ◌∷◌, Option,
  none, some, arith, if◌then◌else◌, str_eq, eq_iff, ltb, ◌==◌,
}
use async_queue_go.Prelude.Int.{ℤ, ltb_ℤ}
use async_queue_go.Redis.Keyspace.{count, zcount, zremove, zinsert, score, due, is_some}
use async_queue_go.Core.Message.{Status}
use async_queue_go.Queue.Cjson.{Cjson}
use async_queue_go.Queue.Lua.Commit.{Mode, to_waiting, to_delayed}
use async_queue_go.Queue.State.{Channel, is_readable}
use async_queue_go.Queue.State.Commit.{commit_spec, fail_spec, requeue_spec}
use async_queue_go.Queue.State.Observe.{forget}
use async_queue_go.Queue.State.Enqueue.{push_spec}
use async_queue_go.Queue.State.Retry.{retry_spec, places}
use async_queue_go.Queue.State.Claim.{claim_from, pop_spec}
use async_queue_go.Queue.State.Forward.{forward_one, forward_each, expire_one, expire_each}
use async_queue_go.Queue.State.Cancel.{cancel_spec}
use async_queue_go.Queue.State.Reload.{Source, set_source, reload_one_spec, reload_from}
use async_queue_go.Queue.State.Counts.{apart, total, count-reverse, zcount-zremove}

module _ (id j : String) where
  pub score-zremove :
      (l : List (String × ℤ)) → score j (zremove id l) ≡ (if str_eq id j then none else score j l)
  unfolding score zremove
  score-zremove [] = ground arith
  score-zremove ((x, s) ∷ l) = ground (arith, eq_iff id j, eq_iff x j, eq_iff x id, score-zremove l)

  pub score-zinsert :
      (s : ℤ) (l : List (String × ℤ)) → str_eq id j ≡ false → score j (zinsert id s l) ≡ score j l
  unfolding score zinsert
  score-zinsert s [] other = ground arith
  score-zinsert s ((x, t) ∷ l) other = ground (arith, score-zinsert s l)

-- An id that is claimed stands in reserved at its deadline.
score_claimed :
    (id : String) (s : ℤ) (l : List (String × ℤ))
    → zcount id l ≡ 0
    → score id (zinsert id s l) ≡ some s
unfolding score zinsert zcount
score_claimed id s [] new = ground (arith, eq_iff id id)
score_claimed id s ((x, t) ∷ l) new = ground (arith, eq_iff id id, score_claimed id s l)

module _ (j : String) where
  pub zcount-score : (l : List (String × ℤ)) (until : ℤ) → score j l ≡ some until → 1 ≤ zcount j l
  unfolding score zcount
  zcount-score [] until h = ground arith
  zcount-score ((x, s) ∷ l) until h = ground (arith, zcount-score l until)

  count-none : (now : ℤ) (l : List (String × ℤ)) → zcount j l ≡ 0 → count j (due now l) ≡ 0
  unfolding zcount due count
  count-none now [] h = refl
  count-none now ((x, s) ∷ l) h = ground (arith, count-none now l)

  -- A reservation that runs on is not due.
  pub not_due :
      (now until : ℤ) (l : List (String × ℤ))
      → score j l ≡ some until
      → zcount j l ≤ 1
      → ltb_ℤ now until ≡ true
      → count j (due now l) ≡ 0
  unfolding score zcount due count
  not_due now until [] h once later = ground arith
  not_due now until ((x, s) ∷ l) h once later =
      ground (arith, not_due now until l, count-none now l)

-- The message is reserved up to this time.
abbrev pub IsLeased : String → ℤ → Channel → Type 0
IsLeased j until o = score j o.reserved ≡ some until

-- It is in no other bucket.
pub alone :
    (j : String) (until : ℤ) (o : Channel)
    → total j o ≤ 1
    → IsLeased j until o
    → (places j o ≡ 0) × (zcount j o.reserved ≡ 1)
alone j until o once h = (
  omega (arith, zcount-score j o.reserved until h),
  omega (arith, zcount-score j o.reserved until h),
)

module _ (c : Cjson) (now deadline : ℤ) (j : String) where
  claimed_there :
      (id : String) (o : Channel)
      → id ≡ j
      → score j (zinsert id deadline (zremove id o.reserved)) ≡ some deadline
  claimed_there id o e =
      subst (λ x. score x (zinsert id deadline (zremove id o.reserved)) ≡ some deadline) e
        (score_claimed id deadline (zremove id o.reserved)
          (ground (arith, zcount-zremove id id o.reserved, eq_iff id id)))

  claim_from_leases :
      (queue : List String) (o : Channel)
      → let p = claim_from c now deadline queue o in p.0 ≡ some j → IsLeased j deadline p.1
  unfolding claim_from
  claim_from_leases [] o = λ e. absurd (cc)
  claim_from_leases (id ∷ younger) o =
      by_test {A = Option String × Channel} (λ p. p.0 ≡ some j → IsLeased j deadline p.1)
        (is_readable c (o.entity id)) _ _ (λ read e. claimed_there id o (ground (arith, e)))
        (λ broken. claim_from_leases younger _)

  pub pop_spec_leases :
      (o : Channel) → let p = pop_spec c now deadline o in p.0 ≡ some j → IsLeased j deadline p.1
  unfolding pop_spec
  pop_spec_leases o = claim_from_leases (reverse o.waiting) o

-- ===== src/Queue/State/Lease/Kept.antt =====
-- What the scripts of pkg/queue/lua.go leave of a reservation: the specifications of all but those that
-- end it keep it.
use mathlib.Core.List.{reverse}
use async_queue_go.Prelude.Tests.{by_test}
use async_queue_go.Prelude.{
  ℕ, zero, suc, ◌+◌, ◌≤◌, String, ◌≡◌, ◌≢◌, ◌∙◌, Bool, false, List, [], ◌∷◌, Option, some, arith,
  if◌then◌else◌, str_eq, eq_iff, ltb, ◌==◌,
}
use async_queue_go.Prelude.Int.{ℤ}
use async_queue_go.Redis.Keyspace.{count, zcount, zremove, score, is_some}
use async_queue_go.Core.Message.{Status}
use async_queue_go.Queue.Cjson.{Cjson}
use async_queue_go.Queue.Lua.Commit.{Mode, to_waiting, to_delayed}
use async_queue_go.Queue.State.{Channel, is_readable}
use async_queue_go.Queue.State.Commit.{commit_spec, fail_spec, requeue_spec}
use async_queue_go.Queue.State.Observe.{forget}
use async_queue_go.Queue.State.Enqueue.{push_spec}
use async_queue_go.Queue.State.Retry.{retry_spec, places}
use async_queue_go.Queue.State.Claim.{claim_from, pop_spec}
use async_queue_go.Queue.State.Forward.{forward_one, forward_each, expire_one, expire_each}
use async_queue_go.Queue.State.Cancel.{cancel_spec}
use async_queue_go.Queue.State.Reload.{Source, set_source, reload_one_spec, reload_from}
use async_queue_go.Queue.State.Counts.{apart, total, count-reverse}
use async_queue_go.Queue.State.Lease.{IsLeased, alone, score-zremove, score-zinsert}

module _ (j : String) (until : ℤ) where
  abbrev Leased : Channel → Type 0
  Leased = IsLeased j until

  other_reserved :
      (id : String) (o : Channel)
      → str_eq id j ≡ false
      → Leased o
      → score j (zremove id o.reserved) ≡ some until
  other_reserved id o other h = score-zremove id j o.reserved ∙ rw other h

  module _ (c : Cjson) (now : ℤ) where
    pub commit_spec-Leased :
        (st : Status) (id : String) (o : Channel)
        → str_eq id j ≡ false
        → Leased o
        → Leased (commit_spec c st now id o)
    unfolding commit_spec
    commit_spec-Leased st id o other h = other_reserved id o other h

    pub fail_spec-Leased :
        (id : String) (o : Channel) → str_eq id j ≡ false → Leased o → Leased (fail_spec c now id o)
    unfolding fail_spec
    fail_spec-Leased id o other h = other_reserved id o other h

    pub requeue_spec-Leased :
        (id : String) (o : Channel)
        → str_eq id j ≡ false
        → Leased o
        → Leased (requeue_spec c now id o)
    unfolding requeue_spec
    requeue_spec-Leased id o other h = other_reserved id o other h

    pub cancel_spec-Leased :
        (id : String) (o : Channel) → Leased o → Leased (cancel_spec c now id o).1
    unfolding cancel_spec
    cancel_spec-Leased id o h = ground (arith, h)

    -- A claim is of another message.
    claim_from-Leased :
        (deadline : ℤ) (queue : List String) (o : Channel)
        → count j queue ≡ 0
        → Leased o
        → let p = claim_from c now deadline queue o in (p.0 ≢ some j) × Leased p.1
    unfolding claim_from
    claim_from-Leased deadline [] o gone h = (λ e. cc, h)
    claim_from-Leased deadline (id ∷ younger) o gone h =
        let o' = record o { waiting = reverse younger; entity = forget id o.entity } in
        by_test {A = Option String × Channel} (λ p. (p.0 ≢ some j) × Leased p.1)
          (is_readable c (o.entity id)) _ _
          (λ read.
            let (other, rest) = apart j id younger gone in
            (
              λ e. ground (arith, e, other, eq_iff id j),
              score-zinsert id j deadline (zremove id o.reserved) other
                  ∙ other_reserved id o other h,
            ))
          (λ broken. claim_from-Leased deadline younger o' (apart j id younger gone).1 h)

    pub pop_spec-Leased :
        (deadline : ℤ) (o : Channel)
        → total j o ≤ 1
        → Leased o
        → let p = pop_spec c now deadline o in (p.0 ≢ some j) × Leased p.1
    unfolding pop_spec
    pop_spec-Leased deadline o once h =
        claim_from-Leased deadline (reverse o.waiting) o
          (omega (arith, (alone j until o once h).0, count-reverse j o.waiting)) h

    forward_one-Leased : (id : String) (o : Channel) → Leased o → Leased (forward_one c now id o)
    unfolding forward_one
    forward_one-Leased id o h = ground (arith, h)

    pub forward_each-Leased :
        (ids : List String) (o : Channel) → Leased o → Leased (forward_each c now ids o)
    unfolding forward_each
    forward_each-Leased [] o h = h
    forward_each-Leased (id ∷ ids) o h =
        forward_each-Leased ids (forward_one c now id o) (forward_one-Leased id o h)

    module _ (skip : Bool) where
      reload_one_spec-Leased :
          (id : String) (o : Channel) → Leased o → Leased (reload_one_spec c now skip id o).1
      unfolding reload_one_spec
      reload_one_spec-Leased id o h = ground (arith, h)

      pub reload_from-Leased :
          (src : Source) (rounds : ℕ) (queue : List String) (n : ℕ) (o : Channel)
          → Leased o
          → Leased (reload_from c now skip src rounds queue n o).1
      unfolding reload_from
      reload_from-Leased src zero queue n o h = h
      reload_from-Leased src (suc rounds) [] n o h = h
      reload_from-Leased src (suc rounds) (id ∷ younger) n o h =
          let o1 = set_source src (reverse younger) (record o { waiting = id ∷ o.waiting }) in
          let r = reload_one_spec c now skip id o1 in
          reload_from-Leased src rounds younger (n + r.0) r.1
            (reload_one_spec-Leased id o1 (set_source-Leased src (reverse younger) _ h))
        where
          set_source-Leased :
              (src : Source) (l : List String) (o : Channel)
              → Leased o
              → Leased (set_source src l o)
          set_source-Leased Source.timeout l o h = h
          set_source-Leased Source.failed l o h = h

  pub push_spec-Leased :
      (mode : Mode) (at : ℤ) (id raw : String) (o : Channel)
      → Leased o
      → Leased (push_spec mode at id raw o)
  unfolding push_spec
  push_spec-Leased to_waiting at id raw o h = h
  push_spec-Leased to_delayed at id raw o h = h

  pub retry_spec-Leased :
      (mode : Mode) (at : ℤ) (id raw : String) (o : Channel)
      → str_eq id j ≡ false
      → Leased o
      → Leased (retry_spec mode at id raw o).1
  unfolding retry_spec
  retry_spec-Leased mode at id raw o other h =
      let freed = record o { reserved = zremove id o.reserved } in
      let kept : Leased freed = other_reserved id o other h in
      by_test {A = Bool × Channel} (λ p. Leased p.1) (ltb 0 (zcount id o.reserved)) _ _
        (λ held. push_spec-Leased mode at id raw freed kept)
        (λ free.
          by_test {A = Bool × Channel} (λ p. Leased p.1) (places id o == 0) _ _ (λ gone. kept)
            (λ found. push_spec-Leased mode at id raw _ kept))

  expire_one-Leased :
      (id : String) (o : Channel) → str_eq id j ≡ false → Leased o → Leased (expire_one id o)
  unfolding expire_one
  expire_one-Leased id o other h = ground (arith, other_reserved id o other h)

  pub expire_each-Leased :
      (n : ℕ) (ids : List String) (o : Channel)
      → count j ids ≡ 0
      → Leased o
      → Leased (expire_each n ids o).1
  unfolding expire_each
  expire_each-Leased n [] o gone h = h
  expire_each-Leased n (id ∷ ids) o gone h =
      let (other, rest) = apart j id ids gone in
      expire_each-Leased (if is_some (o.entity id) then n + 1 else n) ids (expire_one id o) rest
        (expire_one-Leased id o other h)

-- ===== src/Queue/State/Counts.antt =====
-- How often an id stands in a channel's buckets, and what the specifications do to that.
use mathlib.Core.List.{reverse, reverse-append}
use async_queue_go.Prelude.{
  ℕ, zero, suc, ◌+◌, ◌≤◌, String, ◌≡◌, refl, sym, ap, ◌∙◌, Bool, true, false, List, [], ◌∷◌, ◌++◌,
  arith, if◌then◌else◌, str_eq, eq_iff, take,
}
use async_queue_go.Prelude.Int.{ℤ}
use async_queue_go.Redis.Keyspace.{remove, count, due, zremove, zcount, zinsert}
use async_queue_go.Core.Message.{Status}
use async_queue_go.Queue.Cjson.{Cjson}
use async_queue_go.Queue.Lua.Commit.{Mode, to_waiting, to_delayed}
use async_queue_go.Queue.State.{Channel}
use async_queue_go.Queue.State.Commit.{commit_spec, fail_spec, requeue_spec}
use async_queue_go.Queue.State.Observe.{forget}
use async_queue_go.Queue.State.Enqueue.{push_spec}
use async_queue_go.Queue.State.Retry.{retry_spec, places, withdrawn}
use async_queue_go.Queue.State.Claim.{claim_from, pop_spec}
use async_queue_go.Queue.State.Forward.{forward_one, expire_one}
use async_queue_go.Queue.State.Cancel.{cancel_spec}
use async_queue_go.Queue.State.Reload.{
  Source, timeout, failed, source_list, set_source, reload_one_spec, reload_from, reload_spec,
  source_list-one, source_list-set_source,
}

-- In all five buckets together.
abbrev pub total : String → Channel → ℕ
total id o = places id o + zcount id o.reserved

module _ (id j : String) where
  pub count-remove :
      (l : List String) → count j (remove id l) ≡ (if str_eq id j then 0 else count j l)
  unfolding count remove
  count-remove [] = ground arith
  count-remove (x ∷ l) = ground (arith, eq_iff id j, eq_iff x j, eq_iff x id, count-remove l)

  pub zcount-zremove :
      (l : List (String × ℤ)) → zcount j (zremove id l) ≡ (if str_eq id j then 0 else zcount j l)
  unfolding zcount zremove
  zcount-zremove [] = ground arith
  zcount-zremove ((x, s) ∷ l) =
      ground (arith, eq_iff id j, eq_iff x j, eq_iff x id, zcount-zremove l)

  pub zcount-zinsert :
      (s : ℤ) (l : List (String × ℤ))
      → zcount j (zinsert id s l) ≡ zcount j l + (if str_eq id j then 1 else 0)
  unfolding zcount zinsert
  zcount-zinsert s [] = ground arith
  zcount-zinsert s ((x, t) ∷ l) = ground (arith, zcount-zinsert s l)

  -- An id is one of the others, or itself.
  pub same : (f : String → ℕ) → str_eq id j ≡ true → f id ≡ f j
  same f h = ap f ((eq_iff id j).0 h)

module _ (j : String) where
  count-append : (l m : List String) → count j (l ++ m) ≡ count j l + count j m
  unfolding count
  count-append [] m = omega arith
  count-append (x ∷ l) m = ground (arith, count-append l m)

  pub count-reverse : (l : List String) → count j (reverse l) ≡ count j l
  unfolding count
  count-reverse [] = refl
  count-reverse (x ∷ l) =
      ap (count j) (reverse-append (x ∷ []) l)
      ∙ ground (arith, count-append (reverse l) (x ∷ []), count-reverse l)

  pub count-due : (now : ℤ) (l : List (String × ℤ)) → count j (due now l) ≤ zcount j l
  unfolding count due zcount
  count-due now [] = omega arith
  count-due now ((x, s) ∷ l) = ground (arith, count-due now l)

  pub count-take : (n : ℕ) (l : List String) → count j (take n l) ≤ count j l
  unfolding count
  count-take zero l = omega arith
  count-take (suc n) [] = omega arith
  count-take (suc n) (x ∷ l) = ground (arith, count-take n l)

-- An id that is not listed is not the first one listed.
pub apart :
    (j id : String) (ids : List String)
    → count j (id ∷ ids) ≡ 0
    → (str_eq id j ≡ false) × (count j ids ≡ 0)
unfolding count
apart j id ids h = ground arith

-- An id stands in one place at most.
abbrev pub IsExclusive : Channel → Type 0
IsExclusive o = (j : String) → total j o ≤ 1

module _ (c : Cjson) (now : ℤ) (id : String) (o : Channel) (j : String) where
  pub total-commit_spec : (status : Status) → total j (commit_spec c status now id o) ≤ total j o
  unfolding commit_spec
  total-commit_spec status = ground (arith, zcount-zremove id j o.reserved)

  -- What was reserved is put elsewhere.
  pub total-fail_spec : 1 ≤ zcount id o.reserved → total j (fail_spec c now id o) ≤ total j o
  unfolding fail_spec count
  total-fail_spec h =
      ground (arith, zcount-zremove id j o.reserved, same id j (λ x. zcount x o.reserved))

  pub total-requeue_spec : 1 ≤ zcount id o.reserved → total j (requeue_spec c now id o) ≤ total j o
  unfolding requeue_spec count
  total-requeue_spec h =
      ground (arith, zcount-zremove id j o.reserved, same id j (λ x. zcount x o.reserved))

  pub total-cancel_spec : total j (cancel_spec c now id o).1 ≤ total j o
  unfolding cancel_spec
  total-cancel_spec = ground (arith, zcount-zremove id j o.delayed)

module _ (score : ℤ) (id raw : String) where
  pub total-push_spec :
      (mode : Mode) (o : Channel) (j : String)
      → total j (push_spec mode score id raw o) ≤ total j o + (if str_eq id j then 1 else 0)
  unfolding push_spec count
  total-push_spec to_waiting o j = ground arith
  total-push_spec to_delayed o j =
      ground
        (arith, zcount-zinsert id j score (zremove id o.delayed), zcount-zremove id j o.delayed)

  -- A message that is reserved is in no other bucket, by exclusiveness.
  pub total-retry_spec :
      (mode : Mode) (o : Channel) (j : String)
      → total j o ≤ 1
      → total id o ≤ 1
      → total j (retry_spec mode score id raw o).1 ≤ 1
  unfolding retry_spec
  total-retry_spec mode o j h k =
      let freed = record o { reserved = zremove id o.reserved } in
      ground (
        arith,
        total-push_spec mode freed j,
        total-push_spec mode (withdrawn id freed) j,
        zcount-zremove id j o.reserved,
        zcount-zremove id j o.delayed,
        count-remove id j o.waiting,
        count-remove id j o.timeout,
        count-remove id j o.failed,
        same id j (λ x. places x o),
        same id j (λ x. zcount x o.reserved),
      )

module _ (c : Cjson) (now deadline : ℤ) (j : String) where
  total-claim_from :
      (queue : List String) (o : Channel)
      → count j o.waiting ≡ count j queue
      → total j (claim_from c now deadline queue o).1 ≤ total j o
  unfolding claim_from count
  total-claim_from [] o h = omega arith
  total-claim_from (id ∷ younger) o h =
      let o' = record o { waiting = reverse younger; entity = forget id o.entity } in
      ground (
        arith,
        total-claim_from younger o' (count-reverse j younger),
        count-reverse j younger,
        zcount-zinsert id j deadline (zremove id o.reserved),
        zcount-zremove id j o.reserved,
      )

  pub total-pop_spec : (o : Channel) → total j (pop_spec c now deadline o).1 ≤ total j o
  unfolding pop_spec
  total-pop_spec o = total-claim_from (reverse o.waiting) o (sym (count-reverse j o.waiting))

module _ (c : Cjson) (now : ℤ) (skip : Bool) (src : Source) (j : String) where
  pub total-moved :
      (from : Source) (id : String) (younger : List String) (o : Channel)
      → count j (source_list from o) ≡ count j (id ∷ younger)
      → total j (set_source from (reverse younger) (record o { waiting = id ∷ o.waiting }))
        ≡ total j o
  unfolding count
  total-moved timeout id younger o h = ground (arith, count-reverse j younger)
  total-moved failed id younger o h = ground (arith, count-reverse j younger)

  total-reload_one_spec :
      (id : String) (o : Channel) → total j (reload_one_spec c now skip id o).1 ≤ total j o
  unfolding reload_one_spec
  total-reload_one_spec id o = ground (arith, count-remove id j o.waiting)

  total-reload_from :
      (rounds : ℕ) (queue : List String) (n : ℕ) (o : Channel)
      → count j (source_list src o) ≡ count j queue
      → total j (reload_from c now skip src rounds queue n o).1 ≤ total j o
  unfolding reload_from count
  total-reload_from zero queue n o h = omega arith
  total-reload_from (suc rounds) [] n o h = omega arith
  total-reload_from (suc rounds) (id ∷ younger) n o h =
      let o1 = set_source src (reverse younger) (record o { waiting = id ∷ o.waiting }) in
      let r = reload_one_spec c now skip id o1 in
      omega (
        arith,
        total-moved src id younger o h,
        total-reload_one_spec id o1,
        total-reload_from rounds younger (n + r.0) r.1 (
            ap (count j) (
              source_list-one c now skip src id o1 ∙ source_list-set_source src (reverse younger) _)
            ∙ count-reverse j younger),
      )

  pub total-reload_spec : (o : Channel) → total j (reload_spec c now skip src o).1 ≤ total j o
  unfolding reload_spec
  total-reload_spec o =
      total-reload_from 100 (reverse (source_list src o)) 0 o
        (sym (count-reverse j (source_list src o)))

-- One due message.
module _ (c : Cjson) (now : ℤ) (id : String) (o : Channel) (j : String) where
  pub total-forward_one : 1 ≤ zcount id o.delayed → total j (forward_one c now id o) ≤ total j o
  unfolding forward_one count
  total-forward_one h = ground (
    arith,
    zcount-zremove id j o.delayed,
    count-remove id j o.waiting,
    same id j (λ x. zcount x o.delayed),
  )

  pub delayed-forward_one :
      zcount j (forward_one c now id o).delayed ≡ (if str_eq id j then 0 else zcount j o.delayed)
  unfolding forward_one
  delayed-forward_one = ground (arith, zcount-zremove id j o.delayed)

module _ (id : String) (o : Channel) (j : String) where
  pub total-expire_one : 1 ≤ zcount id o.reserved → total j (expire_one id o) ≤ total j o
  unfolding expire_one count
  total-expire_one h =
      ground (arith, zcount-zremove id j o.reserved, same id j (λ x. zcount x o.reserved))

  pub reserved-expire_one :
      zcount j (expire_one id o).reserved ≡ (if str_eq id j then 0 else zcount j o.reserved)
  unfolding expire_one
  reserved-expire_one = ground (arith, zcount-zremove id j o.reserved)

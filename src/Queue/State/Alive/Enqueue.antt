-- ===== src/Queue/State/Alive/Enqueue.antt =====
-- The same for `pushScript` and `retryByIDScript` of pkg/queue/lua.go, which store a new text.
use mathlib.Core.Path.{subst}
use text.Mathlib.TextPositions.{eq_refl}
use async_queue_go.Prelude.Tests.{by_test}
use async_queue_go.Prelude.{
  ltb, ◌==◌, String, ◌≡◌, sym, Bool, true, false, some, arith, str_eq, eq_iff, Bool-cases, inl, inr,
}
use async_queue_go.Prelude.Int.{ℤ}
use async_queue_go.Redis.Keyspace.{count, zcount, zremove}
use async_queue_go.Queue.Cjson.{Cjson}
use async_queue_go.Queue.Lua.Commit.{Mode, to_waiting, to_delayed}
use async_queue_go.Queue.State.{Channel}
use async_queue_go.Queue.State.Enqueue.{push_spec}
use async_queue_go.Queue.State.Retry.{retry_spec, places, withdrawn}
use async_queue_go.Queue.State.Counts.{same, count-remove, zcount-zremove, zcount-zinsert}
use async_queue_go.Queue.State.Alive.{is_live, Alive}

module _ (c : Cjson) (j : String) where
  -- The other messages stay when one is pushed.
  pub push_spec-Alive :
      (mode : Mode) (score : ℤ) (id raw : String) (o : Channel)
      → str_eq id j ≡ false
      → Alive c j o
      → Alive c j (push_spec mode score id raw o)
  unfolding push_spec count
  push_spec-Alive to_waiting score id raw o other (held, live) = (ground arith, rw other live)
  push_spec-Alive to_delayed score id raw o other (held, live) = (
    ground (arith, zcount-zinsert id j score (zremove id o.delayed), zcount-zremove id j o.delayed),
    rw other live,
  )

  -- What is pushed is there, if its text is a live one.
  pushed-Alive :
      (mode : Mode) (score : ℤ) (raw : String) (o : Channel)
      → is_live c (some raw) ≡ true
      → Alive c j (push_spec mode score j raw o)
  unfolding push_spec count
  pushed-Alive to_waiting score raw o live = (ground (arith, eq_refl j), rw (eq_refl j) live)
  pushed-Alive to_delayed score raw o live = (
    ground (arith, eq_refl j, zcount-zinsert j j score (zremove j o.delayed)),
    rw (eq_refl j) live,
  )

  pub push-Alive :
      (mode : Mode) (score : ℤ) (id raw : String) (o : Channel)
      → (str_eq id j ≡ true → is_live c (some raw) ≡ true)
      → (str_eq id j ≡ false → Alive c j o)
      → Alive c j (push_spec mode score id raw o)
  push-Alive mode score id raw o fresh others = elim (Bool-cases (str_eq id j)) [
    | inl e ↦
        subst (λ x. Alive c j (push_spec mode score x raw o)) (sym ((eq_iff id j).0 e))
          (pushed-Alive mode score raw o (fresh e))
    | inr e ↦ push_spec-Alive mode score id raw o e (others e)
  ]

  freed-Alive :
      (id : String) (o : Channel)
      → str_eq id j ≡ false
      → Alive c j o
      → Alive c j (record o { reserved = zremove id o.reserved })
  freed-Alive id o other (held, live) = (ground (arith, zcount-zremove id j o.reserved), live)

  withdrawn-Alive :
      (id : String) (o : Channel) → str_eq id j ≡ false → Alive c j o → Alive c j (withdrawn id o)
  withdrawn-Alive id o other (held, live) = (
    ground (
      arith,
      zcount-zremove id j o.delayed,
      count-remove id j o.waiting,
      count-remove id j o.timeout,
      count-remove id j o.failed,
    ),
    live,
  )

  pub retry_spec-Alive :
      (mode : Mode) (score : ℤ) (id raw : String) (o : Channel)
      → (str_eq id j ≡ true → is_live c (some raw) ≡ true)
      → Alive c j o
      → Alive c j (retry_spec mode score id raw o).1
  unfolding retry_spec
  retry_spec-Alive mode score id raw o fresh a =
      let freed = record o { reserved = zremove id o.reserved } in
      let rest = λ (e : str_eq id j ≡ false). withdrawn-Alive id freed e (freed-Alive id o e a) in
      by_test {A = Bool × Channel} (λ p. Alive c j p.1) (ltb 0 (zcount id o.reserved)) _ _
        (λ held. push-Alive mode score id raw freed fresh (λ e. freed-Alive id o e a))
        (λ free.
          by_test {A = Bool × Channel} (λ p. Alive c j p.1) (places id o == 0) _ _
            (λ gone. elim (Bool-cases (str_eq id j)) [
              | inl e ↦ absurd (
                  ground (
                    arith,
                    a.0,
                    gone,
                    free,
                    same id j (λ x. places x o) e,
                    same id j (λ x. zcount x o.reserved) e,
                  ))
              | inr e ↦ rest e
            ])
            (λ found. push-Alive mode score id raw (withdrawn id freed) fresh rest))

-- ===== src/Queue/State/Place/Timeouts.antt =====
-- The same for the script that puts messages into timeout.
use mathlib.Core.Path.{subst}
use async_queue_go.Prelude.{
  ℕ, ◌+◌, ◌≤◌, String, ◌≡◌, refl, sym, ap, ◌∙◌, true, false, List, [], ◌∷◌, arith, if◌then◌else◌,
  str_eq, eq_iff, Bool-cases, inl, inr,
}
use async_queue_go.Redis.Keyspace.{count, zcount, is_some}
use async_queue_go.Queue.State.{Channel}
use async_queue_go.Queue.State.Forward.{expire_one, expire_each}
use async_queue_go.Queue.State.Counts.{apart, total, zcount-zremove}
use async_queue_go.Queue.State.Place.{reserved, timeout, View, Moved, view_eq}
use async_queue_go.Queue.State.Place.Rounds.{
  Same, Same-Moved, Moved-Same, count_other, first_only, total_of,
}

module _ (j : String) where
  expire_one-Same : (id : String) (o : Channel) → str_eq id j ≡ false → Same j o (expire_one id o)
  unfolding expire_one count
  expire_one-Same id o other =
      view_eq (ground arith) (ground (arith, zcount-zremove id j o.reserved)) (ground arith)
        (ground (arith, other)) (ground arith) (ground arith)

  expire_one-Moved :
      (o : Channel)
      → total j o ≤ 1
      → 1 ≤ zcount j o.reserved
      → is_some (o.entity j) ≡ true
      → Moved j (reserved, timeout) o (expire_one j o)
  unfolding expire_one count
  expire_one-Moved o once held there =
      inr (ground (arith, eq_iff j j, zcount-zremove j j o.reserved))

  expire_each-Same :
      (n : ℕ) (ids : List String) (o : Channel) → count j ids ≡ 0 → Same j o (expire_each n ids o).1
  unfolding expire_each
  expire_each-Same n [] o gone = refl
  expire_each-Same n (id ∷ ids) o gone =
      let (other, rest) = apart j id ids gone in
      expire_each-Same (if is_some (o.entity id) then n + 1 else n) ids (expire_one id o) rest
      ∙ expire_one-Same id o other

  pub expire_each-Moved :
      (n : ℕ) (ids : List String) (o : Channel)
      → count j ids ≤ zcount j o.reserved
      → total j o ≤ 1
      → is_some (o.entity j) ≡ true
      → Moved j (reserved, timeout) o (expire_each n ids o).1
  unfolding expire_each
  expire_each-Moved n [] o few once there = inl refl
  expire_each-Moved n (id ∷ ids) o few once there =
      let m = if is_some (o.entity id) then n + 1 else n in
      elim (Bool-cases (str_eq id j)) [
        | inl e ↦
            let (held, rest) =
              first_only j id ids (zcount j o.reserved) e few (omega (arith, once)) in
            Moved-Same j (reserved, timeout) o (expire_one id o)
              (expire_each m ids (expire_one id o)).1
              (subst (λ x. Moved j (reserved, timeout) o (expire_one x o)) (sym ((eq_iff id j).0 e))
                (expire_one-Moved o once held there))
              (expire_each-Same m ids (expire_one id o) rest)
        | inr e ↦
            let h = expire_one-Same id o e in
            Same-Moved j (reserved, timeout) o (expire_one id o)
              (expire_each m ids (expire_one id o)).1 h
              (expire_each-Moved m ids (expire_one id o)
                (omega (arith, ap (λ v. v.1) h, few, count_other j id ids e))
                (omega (arith, once, ap (total_of j) h)) (ap (λ (v : View). is_some v.5) h ∙ there))
      ]

-- ===== src/Queue/State/Place/Rounds.antt =====
-- The same for the scripts that go through several messages in one run.
use mathlib.Core.List.{reverse}
use mathlib.Core.Path.{subst}
use async_queue_go.Prelude.Tests.{by_test}
use async_queue_go.Prelude.{
  ℕ, ◌+◌, ◌≤◌, String, ◌≡◌, refl, sym, ap, ◌∙◌, true, false, List, [], ◌∷◌, Option, arith, str_eq,
  eq_iff, Bool-cases, inl, inr,
}
use async_queue_go.Prelude.Int.{ℤ}
use async_queue_go.Redis.Keyspace.{count, zcount, zremove, zinsert}
use async_queue_go.Core.Message.{Status}
use async_queue_go.Queue.Cjson.{Cjson}
use async_queue_go.Queue.State.{Channel, is_readable, mark_entity}
use async_queue_go.Queue.State.Observe.{forget}
use async_queue_go.Queue.State.Claim.{claim_from}
use async_queue_go.Queue.State.Forward.{forward_one, forward_each}
use async_queue_go.Queue.State.Counts.{
  apart, total, zcount-zremove, zcount-zinsert, count-remove, count-reverse,
}
use async_queue_go.Queue.State.Place.{
  Place, waiting, reserved, delayed, View, view, place_of, place, Moved, view_eq,
}

-- Nothing of the message is touched.
abbrev pub Same : String → Channel → Channel → Type 0
Same j o o' = view j o' ≡ view j o

module _ (j : String) where
  pub Same-Moved :
      (row : Place × Place) (o o1 o2 : Channel) → Same j o o1 → Moved j row o1 o2 → Moved j row o o2
  Same-Moved row o o1 o2 h (inl stays) = inl (stays ∙ ap place_of h)
  Same-Moved row o o1 o2 h (inr goes) = inr (ap (λ v. (place_of v, place j o2)) (sym h) ∙ goes)

  pub Moved-Same :
      (row : Place × Place) (o o1 o2 : Channel) → Moved j row o o1 → Same j o1 o2 → Moved j row o o2
  Moved-Same row o o1 o2 (inl stays) h = inl (ap place_of h ∙ stays)
  Moved-Same row o o1 o2 (inr goes) h = inr (ap (λ v. (place j o, place_of v)) h ∙ goes)

  pub count_other :
      (id : String) (ids : List String) → str_eq id j ≡ false → count j (id ∷ ids) ≡ count j ids
  unfolding count
  count_other id ids other = ground (arith, other)

  -- An id that is listed first, of which there is one at most, is not listed again.
  pub first_only :
      (id : String) (ids : List String) (n : ℕ)
      → str_eq id j ≡ true
      → count j (id ∷ ids) ≤ n
      → n ≤ 1
      → (1 ≤ n) × (count j ids ≡ 0)
  unfolding count
  first_only id ids n e few once = ground (arith, e)

  -- The total of a view.
  abbrev pub total_of : View → ℕ
  total_of (w, r, d, t, f, e) = (w + d + t + f) + r

  module _ (c : Cjson) (now : ℤ) where
    broken_other :
        (id : String) (o : Channel)
        → is_readable c (o.entity id) ≡ false
        → is_readable c (o.entity j) ≡ true
        → str_eq id j ≡ false
    broken_other id o broken read = elim (Bool-cases (str_eq id j)) [
      | inl e ↦
          ground (arith, broken, read, ap (λ x. is_readable c (o.entity x)) ((eq_iff id j).0 e))
      | inr e ↦ e
    ]

    forward_one-Same :
        (id : String) (o : Channel) → str_eq id j ≡ false → Same j o (forward_one c now id o)
    unfolding forward_one count
    forward_one-Same id o other =
        view_eq (ground (arith, count-remove id j o.waiting)) (ground arith)
          (ground (arith, zcount-zremove id j o.delayed)) (ground arith) (ground arith)
          (ground (arith, other))

    forward_one-Moved :
        (o : Channel)
        → total j o ≤ 1
        → 1 ≤ zcount j o.delayed
        → is_readable c (o.entity j) ≡ true
        → Moved j (delayed, waiting) o (forward_one c now j o)
    unfolding forward_one count
    forward_one-Moved o once held read =
        inr (ground (arith, eq_iff j j, zcount-zremove j j o.delayed))

    forward_each-Same :
        (ids : List String) (o : Channel) → count j ids ≡ 0 → Same j o (forward_each c now ids o)
    unfolding forward_each
    forward_each-Same [] o gone = refl
    forward_each-Same (id ∷ ids) o gone =
        let (other, rest) = apart j id ids gone in
        forward_each-Same ids (forward_one c now id o) rest ∙ forward_one-Same id o other

    pub forward_each-Moved :
        (ids : List String) (o : Channel)
        → count j ids ≤ zcount j o.delayed
        → total j o ≤ 1
        → is_readable c (o.entity j) ≡ true
        → Moved j (delayed, waiting) o (forward_each c now ids o)
    unfolding forward_each
    forward_each-Moved [] o few once read = inl refl
    forward_each-Moved (id ∷ ids) o few once read = elim (Bool-cases (str_eq id j)) [
      | inl e ↦
          let (held, rest) = first_only id ids (zcount j o.delayed) e few (omega (arith, once)) in
          Moved-Same (delayed, waiting) o (forward_one c now id o)
            (forward_each c now ids (forward_one c now id o))
            (subst (λ x. Moved j (delayed, waiting) o (forward_one c now x o))
              (sym ((eq_iff id j).0 e)) (forward_one-Moved o once held read))
            (forward_each-Same ids (forward_one c now id o) rest)
      | inr e ↦
          let h = forward_one-Same id o e in
          Same-Moved (delayed, waiting) o (forward_one c now id o)
            (forward_each c now ids (forward_one c now id o)) h
            (forward_each-Moved ids (forward_one c now id o)
              (omega (arith, ap (λ v. v.2) h, few, count_other id ids e))
              (omega (arith, once, ap total_of h)) (ap (λ (v : View). is_readable c v.5) h ∙ read))
    ]

    -- The state once an id is claimed, and once it is thrown away.
    abbrev claimed : ℤ → String → List String → Channel → Channel
    claimed deadline id younger o = record o {
      waiting = reverse younger;
      reserved = zinsert id deadline (zremove id o.reserved);
      entity = mark_entity c Status.reserved now id o.entity;
    }

    abbrev thrown : String → List String → Channel → Channel
    thrown id younger o = record o { waiting = reverse younger; entity = forget id o.entity }

    claimed-Same :
        (deadline : ℤ) (id : String) (younger : List String) (o : Channel)
        → str_eq id j ≡ false
        → count j o.waiting ≡ count j younger
        → Same j o (claimed deadline id younger o)
    claimed-Same deadline id younger o other all =
        view_eq (omega (arith, count-reverse j younger, all))
          (ground (
            arith,
            other,
            zcount-zinsert id j deadline (zremove id o.reserved),
            zcount-zremove id j o.reserved,
          ))
          refl refl refl (rw other refl)

    thrown-Same :
        (id : String) (younger : List String) (o : Channel)
        → str_eq id j ≡ false
        → count j o.waiting ≡ count j younger
        → Same j o (thrown id younger o)
    thrown-Same id younger o other all =
        view_eq (omega (arith, count-reverse j younger, all)) refl refl refl refl (rw other refl)

    claimed-Moved :
        (deadline : ℤ) (id : String) (younger : List String) (o : Channel)
        → str_eq id j ≡ true
        → count j o.waiting ≡ count j (id ∷ younger)
        → total j o ≤ 1
        → Moved j (waiting, reserved) o (claimed deadline id younger o)
    unfolding count
    claimed-Moved deadline id younger o e all once = inr (
        ground (
          arith,
          all,
          count-reverse j younger,
          zcount-zinsert id j deadline (zremove id o.reserved),
          zcount-zremove id j o.reserved,
        ))

    -- The first id of the queue that can be read is claimed.
    pub claim_from-Moved :
        (deadline : ℤ) (queue : List String) (o : Channel)
        → count j o.waiting ≡ count j queue
        → total j o ≤ 1
        → is_readable c (o.entity j) ≡ true
        → Moved j (waiting, reserved) o (claim_from c now deadline queue o).1
    unfolding claim_from
    claim_from-Moved deadline [] o all once read = inl refl
    claim_from-Moved deadline (id ∷ younger) o all once read =
        by_test {A = Option String × Channel} (λ p. Moved j (waiting, reserved) o p.1)
          (is_readable c (o.entity id)) _ _
          (λ good. elim (Bool-cases (str_eq id j)) [
            | inl e ↦ claimed-Moved deadline id younger o e all once
            | inr e ↦ inl (
                ap place_of (claimed-Same deadline id younger o e (all ∙ count_other id younger e)))
          ])
          (λ broken.
            let e = broken_other id o broken read in
            let h = thrown-Same id younger o e (all ∙ count_other id younger e) in
            Same-Moved (waiting, reserved) o (thrown id younger o)
              (claim_from c now deadline younger (thrown id younger o)).1 h
              (claim_from-Moved deadline younger (thrown id younger o) (count-reverse j younger)
                (omega (arith, once, ap total_of h))
                (ap (λ (v : View). is_readable c v.5) h ∙ read)))

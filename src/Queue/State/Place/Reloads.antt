-- ===== src/Queue/State/Place/Reloads.antt =====
-- The same for the script that puts messages of timeout or failed back into waiting.
use mathlib.Core.List.{reverse}
use mathlib.Core.Path.{subst}
use async_queue_go.Prelude.{
  ℕ, zero, suc, ◌+◌, ◌≤◌, String, ◌≡◌, refl, sym, ap, ◌∙◌, Bool, true, false, List, [], ◌∷◌, Option,
  arith, str_eq, eq_iff, Bool-cases, Option-cases, inl, inr, ◌⊎◌,
}
use async_queue_go.Prelude.Int.{ℤ}
use async_queue_go.Redis.Keyspace.{count}
use async_queue_go.Queue.Cjson.{Cjson}
use async_queue_go.Queue.State.{Channel}
use async_queue_go.Queue.State.Reload.{
  Source, source_list, set_source, reload_one_spec, reload_from, source_list-one,
  source_list-set_source,
}
use async_queue_go.Queue.State.Counts.{apart, total, count-remove, count-reverse}
use async_queue_go.Queue.State.Alive.{is_live}
use async_queue_go.Queue.State.Lossless.{entity-set_source}
use async_queue_go.Queue.State.Place.{Place, waiting, timeout, failed, View, place, Moved, view_eq}
use async_queue_go.Queue.State.Place.Rounds.{Same, Same-Moved, Moved-Same, first_only, total_of}

abbrev pub place_source : Source → Place
place_source Source.timeout = timeout
place_source Source.failed = failed

module _ (c : Cjson) (now : ℤ) (skip : Bool) (src : Source) (j : String) where
  -- The state in which the oldest id of the source has been put into waiting, and the round's state.
  abbrev taken : String → List String → Channel → Channel
  taken id younger o = set_source src (reverse younger) (record o { waiting = id ∷ o.waiting })

  abbrev round : String → List String → Channel → Channel
  round id younger o = (reload_one_spec c now skip id (taken id younger o)).1

  -- What is left of the source after a round.
  left :
      (id : String) (younger : List String) (o : Channel)
      → count j (source_list src (round id younger o)) ≡ count j younger
  left id younger o =
      ap (count j) (
        source_list-one c now skip src id (taken id younger o)
        ∙ source_list-set_source src (reverse younger) _)
      ∙ count-reverse j younger

  reload_one_spec-Same :
      (id : String) (o : Channel)
      → str_eq id j ≡ false
      → Same j o (reload_one_spec c now skip id o).1
  unfolding reload_one_spec
  reload_one_spec-Same id o other =
      view_eq (ground (arith, other, count-remove id j o.waiting)) (ground arith) (ground arith)
        (ground arith) (ground arith) (ground (arith, other))

  taken-Same :
      (from : Source) (id : String) (younger : List String) (o : Channel)
      → str_eq id j ≡ false
      → count j (source_list from o) ≡ count j (id ∷ younger)
      → Same j o (set_source from (reverse younger) (record o { waiting = id ∷ o.waiting }))
  unfolding count
  taken-Same Source.timeout id younger o other all =
      view_eq (ground (arith, other)) refl refl
        (ground (arith, other, all, count-reverse j younger)) refl refl
  taken-Same Source.failed id younger o other all =
      view_eq (ground (arith, other)) refl refl refl
        (ground (arith, other, all, count-reverse j younger)) refl

  -- A live message of the source is put into waiting.
  taken-Moved :
      (from : Source) (younger : List String) (o : Channel)
      → count j (source_list from o) ≡ count j (j ∷ younger)
      → total j o ≤ 1
      → Moved j
          (place_source from, waiting)
          o
          (set_source from (reverse younger) (record o { waiting = j ∷ o.waiting }))
  unfolding count
  taken-Moved Source.timeout younger o all once = inr (ground (arith, all, eq_iff j j))
  taken-Moved Source.failed younger o all once = inr (ground (arith, all, eq_iff j j))

  stays_waiting :
      (o : Channel)
      → is_live c (o.entity j) ≡ true
      → place j (reload_one_spec c now skip j o).1 ≡ place j o
  unfolding reload_one_spec
  stays_waiting o live = elim (Option-cases (o.entity j)) [
    | inl e ↦ ground (arith, e, live)
    | inr (text, e) ↦ elim (Option-cases (c.decode text)) [
      | inl f ↦ ground (arith, e, f, live)
      | inr (t, f) ↦ ground (arith, e, f, live)
    ]
  ]

  round-Same :
      (id : String) (younger : List String) (o : Channel)
      → str_eq id j ≡ false
      → count j (source_list src o) ≡ count j (id ∷ younger)
      → Same j o (round id younger o)
  round-Same id younger o other all =
      reload_one_spec-Same id (taken id younger o) other ∙ taken-Same src id younger o other all

  reload_from-Same :
      (rounds : ℕ) (queue : List String) (n : ℕ) (o : Channel)
      → count j (source_list src o) ≡ count j queue
      → count j queue ≡ 0
      → Same j o (reload_from c now skip src rounds queue n o).1
  unfolding reload_from
  reload_from-Same zero queue n o all gone = refl
  reload_from-Same (suc rounds) [] n o all gone = refl
  reload_from-Same (suc rounds) (id ∷ younger) n o all gone =
      let (other, rest) = apart j id younger gone in
      reload_from-Same rounds younger (n + (reload_one_spec c now skip id (taken id younger o)).0)
        (round id younger o) (left id younger o) rest
      ∙ round-Same id younger o other all

  round-Moved :
      (younger : List String) (o : Channel)
      → count j (source_list src o) ≡ count j (j ∷ younger)
      → total j o ≤ 1
      → is_live c (o.entity j) ≡ true
      → Moved j (place_source src, waiting) o (round j younger o)
  round-Moved younger o all once live =
      let o1 = taken j younger o in
      let live1 : is_live c (o1.entity j) ≡ true =
        ap (λ (e : String → Option String). is_live c (e j))
          (entity-set_source src (reverse younger) (record o { waiting = j ∷ o.waiting }))
        ∙ live in
      subst
        (λ p. (p ≡ place j o) ⊎ ◌≡◌ {A = Place × Place} (place j o, p) (place_source src, waiting))
        (sym (stays_waiting o1 live1)) (taken-Moved src younger o all once)

  source_once : (from : Source) (o : Channel) → count j (source_list from o) ≤ total j o
  source_once Source.timeout o = omega arith
  source_once Source.failed o = omega arith

  pub reload_from-Moved :
      (rounds : ℕ) (queue : List String) (n : ℕ) (o : Channel)
      → count j (source_list src o) ≡ count j queue
      → total j o ≤ 1
      → is_live c (o.entity j) ≡ true
      → Moved j (place_source src, waiting) o (reload_from c now skip src rounds queue n o).1
  unfolding reload_from
  reload_from-Moved zero queue n o all once live = inl refl
  reload_from-Moved (suc rounds) [] n o all once live = inl refl
  reload_from-Moved (suc rounds) (id ∷ younger) n o all once live =
      let row : Place × Place = (place_source src, waiting) in
      let o1 = round id younger o in
      let m = n + (reload_one_spec c now skip id (taken id younger o)).0 in
      let o2 = (reload_from c now skip src rounds younger m o1).1 in
      elim (Bool-cases (str_eq id j)) [
        | inl e ↦
            let few = source_once src o in
            let (held, rest) =
              first_only j id younger (count j (source_list src o)) e (omega (arith, all))
                (omega (arith, few, once)) in
            Moved-Same j row o o1 o2
              (subst
                (λ x.
                  count j (source_list src o) ≡ count j (x ∷ younger)
                  → Moved j row o (round x younger o))
                (sym ((eq_iff id j).0 e)) (λ h. round-Moved younger o h once live) all)
              (reload_from-Same rounds younger m o1 (left id younger o) rest)
        | inr e ↦
            let h = round-Same id younger o e all in
            Same-Moved j row o o1 o2 h (
              reload_from-Moved rounds younger m o1 (left id younger o)
                (omega (arith, once, ap (total_of j) h))
                (ap (λ (v : View). is_live c v.5) h ∙ live))
      ]

-- ===== src/Queue/State/Recovery.antt =====
-- How a message whose reservation has run out comes back: `moveTimeoutScript` and then
-- `reloadScript` of pkg/queue/lua.go, on a channel's state.
use mathlib.Core.List.{reverse}
use async_queue_go.Prelude.{
  ℕ, zero, suc, ◌+◌, ◌≤◌, String, ◌≡◌, refl, ap, ◌∙◌, Bool, true, List, [], ◌∷◌, Option, some,
  arith, if◌then◌else◌, str_eq, eq_iff, length, length-reverse, take, Bool-cases, inl, inr,
}
use async_queue_go.Prelude.Int.{ℤ, leb_ℤ}
use async_queue_go.Redis.Keyspace.{count, score, due, is_some}
use async_queue_go.Queue.Cjson.{Cjson, IsCjson}
use async_queue_go.Queue.State.{Channel}
use async_queue_go.Queue.State.Forward.{expire_one, expire_each, expire_spec}
use async_queue_go.Queue.State.Reload.{
  Source, set_source, reload_one_spec, reload_from, reload_spec,
}
use async_queue_go.Queue.State.Counts.{count-reverse, count-remove}
use async_queue_go.Queue.State.Alive.{is_live}
use async_queue_go.Queue.State.Lossless.{live-reload_one_spec, entity-set_source}

take_all : (n : ℕ) (l : List String) → length l ≤ n → take n l ≡ l
take_all zero [] h = refl
take_all zero (x ∷ l) h = absurd (omega arith)
take_all (suc n) [] h = refl
take_all (suc n) (x ∷ l) h = ap (λ t. x ∷ t) (take_all n l (omega arith))

length-due : (now : ℤ) (l : List (String × ℤ)) → length (due now l) ≤ length l
unfolding due
length-due now [] = omega arith
length-due now ((x, s) ∷ l) = ground (arith, length-due now l)

-- A reservation that has run out is due.
due_count :
    (j : String) (now until : ℤ) (l : List (String × ℤ))
    → score j l ≡ some until
    → leb_ℤ until now ≡ true
    → 1 ≤ count j (due now l)
unfolding score due count
due_count j now until [] h past = ground arith
due_count j now until ((x, s) ∷ l) h past = ground (arith, due_count j now until l)

module _ (c : Cjson) (j : String) where
  -- It waits, with a text that can be read.
  abbrev pub IsBack : Channel → Type 0
  IsBack o = (1 ≤ count j o.waiting) × (is_live c (o.entity j) ≡ true)

  entity-expire_one : (id : String) (o : Channel) → (expire_one id o).entity ≡ o.entity
  unfolding expire_one
  entity-expire_one id o = ground arith

  timeout-expire_one :
      (id : String) (o : Channel)
      → is_live c (o.entity j) ≡ true
      → count j o.timeout + (if str_eq id j then 1 else 0) ≤ count j (expire_one id o).timeout
  unfolding expire_one count
  timeout-expire_one id o live = elim (Bool-cases (str_eq id j)) [
    | inl e ↦ ground (arith, e, ap (λ x. is_live c (o.entity x)) ((eq_iff id j).0 e) ∙ live)
    | inr e ↦ ground arith
  ]

  length-expire_one :
      (id : String) (o : Channel) → length (expire_one id o).timeout ≤ length o.timeout + 1
  unfolding expire_one
  length-expire_one id o = ground arith

  -- All that are due are in timeout, and the text of the message is as it was.
  expire_each_adds :
      (n : ℕ) (ids : List String) (o : Channel)
      → is_live c (o.entity j) ≡ true
      → let o' = (expire_each n ids o).1 in
        (count j o.timeout + count j ids ≤ count j o'.timeout)
        × (length o'.timeout ≤ length o.timeout + length ids)
        × (is_live c (o'.entity j) ≡ true)
  unfolding expire_each count
  expire_each_adds n [] o live = (omega arith, omega arith, live)
  expire_each_adds n (id ∷ ids) o live =
      let o1 = expire_one id o in
      let (more, longer, kept) =
        expire_each_adds (if is_some (o.entity id) then n + 1 else n) ids o1
          (ap (λ (e : String → Option String). is_live c (e j)) (entity-expire_one id o) ∙ live) in
      (
        ground (arith, more, timeout-expire_one id o live),
        omega (arith, longer, length-expire_one id o),
        kept,
      )

  module _ (k : IsCjson c) (now : ℤ) (skip : Bool) where
    waiting-reload_one_spec :
        (id : String) (o : Channel)
        → is_live c (o.entity j) ≡ true
        → count j o.waiting ≤ count j (reload_one_spec c now skip id o).1.waiting
    unfolding reload_one_spec
    waiting-reload_one_spec id o live = elim (Bool-cases (str_eq id j)) [
      | inl e ↦ ground (arith, ap (λ x. is_live c (o.entity x)) ((eq_iff id j).0 e) ∙ live)
      | inr e ↦ ground (arith, count-remove id j o.waiting)
    ]

    waiting-set_source :
        (src : Source) (l : List String) (o : Channel) → (set_source src l o).waiting ≡ o.waiting
    waiting-set_source Source.timeout l o = refl
    waiting-set_source Source.failed l o = refl

    -- Each id that the rounds reach is put into waiting, if its text is a live one.
    reload_from_adds :
        (src : Source) (rounds : ℕ) (queue : List String) (n : ℕ) (o : Channel)
        → is_live c (o.entity j) ≡ true
        → let o' = (reload_from c now skip src rounds queue n o).1 in
          (count j o.waiting + count j (take rounds queue) ≤ count j o'.waiting)
          × (is_live c (o'.entity j) ≡ true)
    unfolding reload_from count
    reload_from_adds src zero queue n o live = (omega arith, live)
    reload_from_adds src (suc rounds) [] n o live = (omega arith, live)
    reload_from_adds src (suc rounds) (id ∷ younger) n o live =
        let moved = record o { waiting = id ∷ o.waiting } in
        let o1 = set_source src (reverse younger) moved in
        let r = reload_one_spec c now skip id o1 in
        let live1 : is_live c (o1.entity j) ≡ true =
          ap (λ (e : String → Option String). is_live c (e j))
            (entity-set_source src (reverse younger) moved)
          ∙ live in
        let (more, kept) =
          reload_from_adds src rounds younger (n + r.0) r.1
            (live-reload_one_spec c k now j skip id o1 live1) in
        (
          ground (
            arith,
            more,
            waiting-reload_one_spec id o1 live1,
            ap (count j) (waiting-set_source src (reverse younger) moved),
          ),
          kept,
        )

    -- A message that is back stays so.
    pub reload_spec-IsBack :
        (src : Source) (o : Channel) → IsBack o → IsBack (reload_spec c now skip src o).1
    unfolding reload_spec
    reload_spec-IsBack src o (held, live) =
        let (more, kept) = reload_from_adds src 100 _ 0 o live in (omega (arith, more, held), kept)

    -- One of at most a hundred messages in timeout comes back.
    pub reload_spec-recovers :
        (o : Channel)
        → 1 ≤ count j o.timeout
        → length o.timeout ≤ 100
        → is_live c (o.entity j) ≡ true
        → IsBack (reload_spec c now skip Source.timeout o).1
    unfolding reload_spec
    reload_spec-recovers o there short live =
        let queue = reverse o.timeout in
        let (more, kept) = reload_from_adds Source.timeout 100 queue 0 o live in
        (
          omega (
            arith,
            more,
            there,
            count-reverse j o.timeout,
            ap (count j) (take_all 100 queue (omega (arith, length-reverse o.timeout))),
          ),
          kept,
        )

  -- What has run out is in timeout, if at most a hundred messages are reserved.
  pub expire_spec-timeout :
      (now until : ℤ) (o : Channel)
      → score j o.reserved ≡ some until
      → leb_ℤ until now ≡ true
      → length o.reserved ≤ 100
      → is_live c (o.entity j) ≡ true
      → let o' = (expire_spec now o).1 in
        (1 ≤ count j o'.timeout)
        × (length o'.timeout ≤ length o.timeout + length o.reserved)
        × (is_live c (o'.entity j) ≡ true)
  unfolding expire_spec
  expire_spec-timeout now until o h past few live =
      let ids = due now o.reserved in
      let all = take_all 100 ids (omega (arith, length-due now o.reserved)) in
      let (more, longer, kept) = expire_each_adds 0 (take 100 ids) o live in
      (
        omega (arith, more, due_count j now until o.reserved h past, ap (count j) all),
        omega (arith, longer, length-due now o.reserved, ap length all),
        kept,
      )

-- ===== src/Queue/State/Alive.antt =====
-- A message that is in some bucket, with a text that can be read, stays so under the specifications of
-- the scripts of pkg/queue/lua.go, but for those that end it.
pub mod Enqueue
use mathlib.Core.List.{reverse}
use mathlib.Core.Path.{subst}
use text.Mathlib.TextPositions.{eq_refl}
use async_queue_go.Prelude.Tests.{by_test}
use async_queue_go.Prelude.{
  ◌≤◌, ltb, ◌==◌, String, ◌≡◌, refl, sym, ap, ◌∙◌, Bool, true, false, List, [], ◌∷◌, Option, none,
  some, arith, if◌then◌else◌, str_eq, eq_iff, Bool-cases, Option-cases, inl, inr,
}
use async_queue_go.Prelude.Int.{ℤ}
use async_queue_go.Redis.Keyspace.{count, zcount, zremove}
use async_queue_go.Redis.Program.{on}
use async_queue_go.Core.Message.{Status}
use async_queue_go.Queue.Cjson.{Cjson, IsCjson, IsNamed, stamped}
use async_queue_go.Queue.Lua.Commit.{Mode, to_waiting, to_delayed}
use async_queue_go.Queue.Lua.Manage.{is_stale}
use async_queue_go.Queue.State.{Channel, is_readable, mark_entity, restamp}
use async_queue_go.Queue.State.Commit.{commit_spec, fail_spec, requeue_spec}
use async_queue_go.Queue.State.Observe.{forget}
use async_queue_go.Queue.State.Enqueue.{push_spec}
use async_queue_go.Queue.State.Retry.{retry_spec, places, withdrawn}
use async_queue_go.Queue.State.Claim.{claim_from, pop_spec}
use async_queue_go.Queue.State.Forward.{forward_one, expire_one}
use async_queue_go.Queue.State.Cancel.{cancel_spec}
use async_queue_go.Queue.State.Counts.{
  total, same, count-remove, zcount-zremove, zcount-zinsert, count-reverse,
}

module _ (c : Cjson) where
  -- A text that can be read, of a message that is not done, dropped or canceled.
  abbrev pub is_live : Option String → Bool
  is_live raw =
      on raw false
        λ text. on (c.decode text) false λ msg. if is_stale (c.status msg) then false else true

  -- In some bucket, with such a text.
  abbrev pub Alive : String → Channel → Type 0
  Alive j o = (1 ≤ total j o) × (is_live (o.entity j) ≡ true)

  readable-live : (raw : Option String) → is_live raw ≡ true → is_readable c raw ≡ true
  readable-live raw h = ground arith

  pub readable-same :
      (id j : String) (o : Channel)
      → Alive j o
      → str_eq id j ≡ true
      → is_readable c (o.entity id) ≡ true
  readable-same id j o (held, live) e =
      ap (λ x. is_readable c (o.entity x)) ((eq_iff id j).0 e) ∙ readable-live (o.entity j) live

  module _ (k : IsCjson c) (now : ℤ) where
    -- A status that is not a last one.
    abbrev pub IsOpen : Status → Type 0
    IsOpen st = IsNamed st × (is_stale (some st) ≡ false)

    live-stamped :
        (st : Status) (t : c.Table) → IsOpen st → is_live (some (stamped c st now t)) ≡ true
    unfolding stamped
    live-stamped st t (named, fresh) =
        let (t', again, same) = k.reread (c.set_updated_at now (c.set_status st t)) in
        let kept =
          same ∙ k.status-set_updated_at now (c.set_status st t) ∙ k.status-set st t named in
        rw again (rw kept (rw fresh refl))

    live-restamp :
        (st : Status) (raw : Option String)
        → IsOpen st
        → is_live raw ≡ true
        → is_live (restamp c st now raw) ≡ true
    live-restamp st none p h = h
    live-restamp st (some text) p h = elim (Option-cases (c.decode text)) [
      | inl e ↦ ground (arith, h, e)
      | inr (t, e) ↦ rw e (live-stamped st t p)
    ]

    pub live-mark_entity :
        (st : Status) (id j : String) (entity : String → Option String)
        → IsOpen st
        → is_live (entity j) ≡ true
        → is_live (mark_entity c st now id entity j) ≡ true
    live-mark_entity st id j entity p h = elim (Bool-cases (str_eq id j)) [
      | inl e ↦
          rw e
            (live-restamp st (entity id) p (ap (λ x. is_live (entity x)) ((eq_iff id j).0 e) ∙ h))
      | inr e ↦ rw e h
    ]

    module _ (j : String) where
      pub commit_spec-Alive :
          (st : Status) (id : String) (o : Channel)
          → str_eq id j ≡ false
          → Alive j o
          → Alive j (commit_spec c st now id o)
      unfolding commit_spec
      commit_spec-Alive st id o other (held, live) =
          (ground (arith, zcount-zremove id j o.reserved), rw other live)

      pub fail_spec-Alive : (id : String) (o : Channel) → Alive j o → Alive j (fail_spec c now id o)
      unfolding fail_spec count
      fail_spec-Alive id o (held, live) = (
        ground (arith, zcount-zremove id j o.reserved, readable-same id j o (held, live)),
        live-mark_entity Status.failed id j o.entity (tt, refl) live,
      )

      pub requeue_spec-Alive :
          (id : String) (o : Channel) → Alive j o → Alive j (requeue_spec c now id o)
      unfolding requeue_spec count
      requeue_spec-Alive id o (held, live) = (
        ground (arith, zcount-zremove id j o.reserved, readable-same id j o (held, live)),
        live-mark_entity Status.waiting id j o.entity (tt, refl) live,
      )

      live-forward_one :
          (id : String) (o : Channel)
          → Alive j o
          → is_live ((forward_one c now id o).entity j) ≡ true
      unfolding forward_one
      live-forward_one id o (held, live) = elim (Option-cases (o.entity id)) [
        | inl e ↦ rw e live
        | inr (text, e) ↦ elim (Option-cases (c.decode text)) [
          | inl f ↦ ground (arith, live, e, f, readable-same id j o (held, live))
          | inr (t, f) ↦ rw e (rw f (live-mark_entity Status.waiting id j o.entity (tt, refl) live))
        ]
      ]

      pub forward_one-Alive :
          (id : String) (o : Channel) → Alive j o → Alive j (forward_one c now id o)
      unfolding forward_one count
      forward_one-Alive id o (held, live) = (
        ground (
          arith,
          zcount-zremove id j o.delayed,
          count-remove id j o.waiting,
          readable-same id j o (held, live),
        ),
        live-forward_one id o (held, live),
      )

      claim_from-Alive :
          (deadline : ℤ) (queue : List String) (o : Channel)
          → count j o.waiting ≡ count j queue
          → Alive j o
          → Alive j (claim_from c now deadline queue o).1
      unfolding claim_from count
      claim_from-Alive deadline [] o h a = a
      claim_from-Alive deadline (id ∷ younger) o h (held, live) =
          let o' = record o { waiting = reverse younger; entity = forget id o.entity } in
          by_test {A = Option String × Channel} (λ p. Alive j p.1) (is_readable c (o.entity id)) _ _
            (λ read. (
              ground (
                arith,
                count-reverse j younger,
                zcount-zinsert id j deadline (zremove id o.reserved),
                zcount-zremove id j o.reserved,
              ),
              live-mark_entity Status.reserved id j o.entity (tt, refl) live,
            ))
            (λ broken. claim_from-Alive deadline younger o' (count-reverse j younger) (
              ground (arith, count-reverse j younger, readable-same id j o (held, live)),
              ground (arith, live, readable-same id j o (held, live)),
            ))

      pub pop_spec-Alive :
          (deadline : ℤ) (o : Channel) → Alive j o → Alive j (pop_spec c now deadline o).1
      unfolding pop_spec
      pop_spec-Alive deadline o =
          claim_from-Alive deadline (reverse o.waiting) o (sym (count-reverse j o.waiting))

      pub cancel_spec-Alive :
          (id : String) (o : Channel)
          → str_eq id j ≡ false
          → Alive j o
          → Alive j (cancel_spec c now id o).1
      unfolding cancel_spec
      cancel_spec-Alive id o other (held, live) =
          (ground (arith, zcount-zremove id j o.delayed), ground (arith, other, live))

  module _ (j : String) where
    pub expire_one-Alive : (id : String) (o : Channel) → Alive j o → Alive j (expire_one id o)
    unfolding expire_one count
    expire_one-Alive id o (held, live) = (
      ground (arith, zcount-zremove id j o.reserved, readable-same id j o (held, live)),
      ground (arith, live),
    )

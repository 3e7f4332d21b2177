-- ===== src/Queue/State/Claim.antt =====
-- The specification of `popScript` of pkg/queue/lua.go on a channel's state.
use mathlib.Core.List.{reverse, reverse-reverse}
use async_queue_go.Prelude.{
  ℕ, zero, suc, ◌<◌, String, ◌≡◌, refl, sym, ap, ◌∙◌, List, [], ◌∷◌, Option, none, some, arith,
  if◌then◌else◌, eq_iff, length, length-reverse, Option-cases, inl, inr,
}
use async_queue_go.Prelude.Int.{ℤ}
use async_queue_go.Redis.Keyspace.{Keyspace, update, unsnoc, zremove, zinsert}
use async_queue_go.Redis.Program.{Program, pure, ◌>>=◌, on}
use async_queue_go.Redis.Server.{Server, keyspace}
use async_queue_go.Redis.Agreement.{IsRedis}
use async_queue_go.Core.Message.{reserved}
use async_queue_go.Queue.Keys.{new_keys, message}
use async_queue_go.Queue.Keys.Distinct.{key_laws}
use async_queue_go.Queue.Cjson.{Cjson, stamped}
use async_queue_go.Queue.Lua.Commit.{rewrite}
use async_queue_go.Queue.Lua.Move.{pop_loop, pop}
use async_queue_go.Queue.Lua.Agreement.{pop-Agrees}
use async_queue_go.Queue.State.{Channel, observe, is_readable, mark_entity}
use async_queue_go.Queue.State.Observe.{
  unsnoc-reverse, forget, observe-del, observe-zadd_reserved, texts-observe, observe-restamped,
}
use async_queue_go.Queue.State.Commit.{channel_ext}

module _ (c : Cjson) (now deadline : ℤ) where
  -- The waiting ids, oldest first: those without a readable text are thrown away with what is stored
  -- for them, and the first other one is reserved.
  unfoldable pub claim_from : List String → Channel → Option String × Channel
  claim_from [] o = (none, o)
  claim_from (id ∷ younger) o =
      let rest =
        claim_from younger (record o { waiting = reverse younger; entity = forget id o.entity }) in
      if is_readable c (o.entity id)
      then (
        some id,
        record o {
          waiting = reverse younger;
          reserved = zinsert id deadline (zremove id o.reserved);
          entity = mark_entity c reserved now id o.entity;
        },
      )
      else rest

  unfoldable pub pop_spec : Channel → Option String × Channel
  pop_spec o = claim_from (reverse o.waiting) o

module _ (name : String) where
  -- The keyspace after RPOP.
  abbrev shortened : List String → Keyspace → Keyspace
  shortened rest d = record d { lists = update d.lists (new_keys name).waiting rest }

  observe-shortened :
      (rest : List String) (d : Keyspace)
      → observe name (shortened rest d) ≡ record (observe name d) { waiting = rest }
  unfolding observe new_keys
  observe-shortened rest d = simp key_laws

  waiting-shortened :
      (rest : List String) (d : Keyspace) → (shortened rest d).lists (new_keys name).waiting ≡ rest
  waiting-shortened rest d = simp key_laws

  waiting-del :
      (id : String) (rest : List String) (d : Keyspace)
      → (keyspace.del (message (new_keys name) id) (shortened rest d)).1.lists
          (new_keys name).waiting
        ≡ rest
  unfolding new_keys
  waiting-del id rest d = simp key_laws

  module _ (c : Cjson) (now deadline : ℤ) where
    abbrev claim : ℕ → Program Keyspace (Option String)
    claim fuel =
        let k = new_keys name in
        pop_loop keyspace c fuel k.waiting k.reserved k.message_prefix now deadline

    abbrev reserve : String → String → Program Keyspace (Option String)
    reserve id text d = (
      some id,
      (keyspace.zadd (new_keys name).reserved deadline id
          (rewrite keyspace (message (new_keys name) id) text d).1).1,
    )

    claim_empty :
        (fuel : ℕ) (d : Keyspace)
        → d.lists (new_keys name).waiting ≡ []
        → claim (suc fuel) d ≡ (none, d)
    unfolding pop_loop ◌>>=◌ pure unsnoc
    claim_empty fuel d h = rw h refl

    claim_step :
        (fuel : ℕ) (id : String) (rest : List String) (d : Keyspace)
        → unsnoc (d.lists (new_keys name).waiting) ≡ some (rest, id)
        → claim (suc fuel) d ≡ (
            let d' = shortened rest d in
            on (d.texts (message (new_keys name) id)) (claim fuel d') λ text.
              on
                (c.decode text)
                (claim fuel (keyspace.del (message (new_keys name) id) d').1)
                λ msg. reserve id (stamped c reserved now msg) d')
    unfolding pop_loop ◌>>=◌ pure message
    claim_step fuel id rest d h = rw h (elim (Option-cases (d.texts (message (new_keys name) id))) [
      | inl e ↦ rw e refl
      | inr (text, e) ↦ elim (Option-cases (c.decode text)) [
        | inl f ↦ rw e (rw f refl)
        | inr (msg, f) ↦ rw e (rw f refl)
      ]
    ])

    abbrev seen : Option String × Keyspace → Option String × Channel
    seen p = (p.0, observe name p.1)

    observe-forget :
        (id : String) (rest : List String) (d : Keyspace)
        → (observe name d).entity id ≡ none
        → observe name (shortened rest d)
          ≡ record (observe name d) { waiting = rest; entity = forget id (observe name d).entity }
    observe-forget id rest d e =
        observe-shortened rest d
        ∙ channel_ext _ _ refl refl refl refl refl (λ j. ground (arith, eq_iff id j))

    observe-reserved :
        (id text : String) (msg : c.Table) (rest : List String) (d : Keyspace)
        → (observe name d).entity id ≡ some text
        → c.decode text ≡ some msg
        → observe name (reserve id (stamped c reserved now msg) (shortened rest d)).1
          ≡ record (observe name d) {
            waiting = rest;
            reserved = zinsert id deadline (zremove id (observe name d).reserved);
            entity = mark_entity c reserved now id (observe name d).entity;
          }
    observe-reserved id text msg rest d e g =
        observe-zadd_reserved name deadline id _
        ∙ ap (λ (o : Channel). record o { reserved = zinsert id deadline (zremove id o.reserved) })
            (observe-restamped name c reserved now id text msg (shortened rest d)
                (ap (λ (o : Channel). o.entity id) (observe-shortened rest d) ∙ e) g
              ∙ ap (λ (o : Channel). record o { entity = mark_entity c reserved now id o.entity })
                  (observe-shortened rest d))

    seen-claim :
        (fuel : ℕ) (queue : List String) (d : Keyspace)
        → length queue < fuel
        → d.lists (new_keys name).waiting ≡ reverse queue
        → seen (claim fuel d) ≡ claim_from c now deadline queue (observe name d)
    unfolding claim_from
    seen-claim zero queue d f h = elim f [ ]
    seen-claim (suc fuel) [] d f h = ap seen (claim_empty fuel d h)
    seen-claim (suc fuel) (id ∷ younger) d f h =
        ap seen (claim_step fuel id (reverse younger) d (ap unsnoc h ∙ unsnoc-reverse younger id))
        ∙ rw (texts-observe name id d) (elim (Option-cases ((observe name d).entity id)) [
          | inl e ↦ rw e (
              seen-claim fuel younger _ (omega arith) (waiting-shortened _ d)
              ∙ ap (claim_from c now deadline younger) (observe-forget id (reverse younger) d e))
          | inr (text, e) ↦ elim (Option-cases (c.decode text)) [
            | inl g ↦ rw e (
                rw g (
                  seen-claim fuel younger _ (omega arith) (waiting-del id _ d)
                  ∙ ap (claim_from c now deadline younger) (
                      observe-del name id (shortened (reverse younger) d)
                      ∙ ap (λ (o : Channel). record o { entity = forget id o.entity })
                          (observe-shortened (reverse younger) d))))
            | inr (msg, g) ↦
                rw e (rw g (λ i. (some id, observe-reserved id text msg (reverse younger) d e g i)))
          ]
        ])

    pop_lem :
        (d : Keyspace)
        → seen (
            pop keyspace c
              (new_keys name).waiting
              (new_keys name).reserved
              (new_keys name).message_prefix
              now
              deadline
              d)
          ≡ pop_spec c now deadline (observe name d)
    unfolding pop ◌>>=◌ pop_spec
    pop_lem d =
        seen-claim _ (reverse (d.lists (new_keys name).waiting)) d
          (omega (arith, length-reverse (d.lists (new_keys name).waiting)))
          (sym (reverse-reverse _))
        ∙ unfold observe in refl

-- On a server that behaves as documented, the pop script goes through the waiting ids from the
-- oldest on: it throws away those without a readable text, with what is stored for them, and moves
-- the first other one to reserved, at its deadline, with the status reserved; nothing else of the
-- channel changes. It answers nothing only when no waiting id is readable, and the loop always ends.
pub pop_refines :
    (s : Server) (r : IsRedis s) (c : Cjson) (name : String) (now deadline : ℤ) (db : s.Db)
    → let k = new_keys name in
      let (claimed, db') = pop s c k.waiting k.reserved k.message_prefix now deadline db in
      (claimed, observe name (r.view db')) ≡ pop_spec c now deadline (observe name (r.view db))
pop_refines s r c name now deadline db =
    ap (seen name c now deadline) ((pop-Agrees s r c _ _ _ now deadline).at db)
    ∙ pop_lem name c now deadline (r.view db)

-- ===== src/Queue/State/Reload.antt =====
-- The specification of `reloadScript` of pkg/queue/lua.go on a channel's state: from timeout or
-- failed back to waiting.
use mathlib.Core.List.{reverse, reverse-reverse}
use async_queue_go.Prelude.{
  ℕ, zero, suc, ◌+◌, String, ◌≡◌, refl, sym, ap, ◌∙◌, Bool, ◌&&◌, List, [], ◌∷◌, some, arith,
  if◌then◌else◌, Option-cases, Bool-cases, inl, inr,
}
use async_queue_go.Prelude.Int.{ℤ}
use async_queue_go.Redis.Keyspace.{Keyspace, update, unsnoc, remove}
use async_queue_go.Redis.Program.{Program, pure, ◌>>=◌, on}
use async_queue_go.Redis.Server.{Server, keyspace}
use async_queue_go.Redis.Agreement.{IsRedis}
use async_queue_go.Core.Message.{waiting}
use async_queue_go.Queue.Keys.{Keys, new_keys, message}
use async_queue_go.Queue.Keys.Distinct.{key_laws}
use async_queue_go.Queue.Cjson.{Cjson, stamped}
use async_queue_go.Queue.Lua.Commit.{rewrite}
use async_queue_go.Queue.Lua.Manage.{is_stale, reload_one, reload_loop, reload}
use async_queue_go.Queue.Lua.Agreement.{reload-Agrees}
use async_queue_go.Queue.State.{Channel, observe, mark_entity}
use async_queue_go.Queue.State.Observe.{
  seen, unsnoc-reverse, texts-observe, observe-lrem_waiting, observe-restamped,
}

-- The list that is reloaded.
pub data Source : Type 0 where
  timeout failed : Source

abbrev pub source_key : Source → Keys → String
source_key timeout k = k.timeout
source_key failed k = k.failed

abbrev pub source_list : Source → Channel → List String
source_list timeout o = o.timeout
source_list failed o = o.failed

abbrev pub set_source : Source → List String → Channel → Channel
set_source timeout l o = record o { timeout = l }
set_source failed l o = record o { failed = l }

pub source_list-set_source :
    (src : Source) (l : List String) (o : Channel) → source_list src (set_source src l o) ≡ l
source_list-set_source timeout l o = refl
source_list-set_source failed l o = refl

module _ (c : Cjson) (now : ℤ) (skip_stale : Bool) where
  -- The id at the left end of waiting stays there, with the status waiting, or is taken out again.
  unfoldable pub reload_one_spec : String → Channel → ℕ × Channel
  reload_one_spec id o =
      let discarded : ℕ × Channel = (0, record o { waiting = remove id o.waiting }) in
      on (o.entity id) discarded λ text. on (c.decode text) discarded λ msg.
        if skip_stale && is_stale (c.status msg)
        then discarded
        else (1, record o { entity = mark_entity c waiting now id o.entity })

  pub source_list-one :
      (src : Source) (id : String) (o : Channel)
      → source_list src (reload_one_spec id o).1 ≡ source_list src o
  unfolding reload_one_spec
  source_list-one timeout id o = ground arith
  source_list-one failed id o = ground arith

  -- The ids of the source, oldest first, for some rounds; the count goes on.
  unfoldable pub reload_from : Source → ℕ → List String → ℕ → Channel → ℕ × Channel
  reload_from src zero queue count o = (count, o)
  reload_from src (suc rounds) [] count o = (count, o)
  reload_from src (suc rounds) (id ∷ younger) count o =
      let (n, o') =
        reload_one_spec id
          (set_source src (reverse younger) (record o { waiting = id ∷ o.waiting })) in
      reload_from src rounds younger (count + n) o'

  unfoldable pub reload_spec : Source → Channel → ℕ × Channel
  reload_spec src o = reload_from src 100 (reverse (source_list src o)) 0 o

module _ (name : String) (c : Cjson) (now : ℤ) (skip_stale : Bool) where
  abbrev one : String → Program Keyspace ℕ
  one id =
      let k = new_keys name in reload_one keyspace c k.waiting k.message_prefix now skip_stale id

  one_step :
      (id : String) (d : Keyspace)
      → one id d ≡ (
          let key = message (new_keys name) id in
          let discarded : ℕ × Keyspace = (0, (keyspace.lrem (new_keys name).waiting id d).1) in
          on (d.texts key) discarded λ text. on (c.decode text) discarded λ msg.
            if skip_stale && is_stale (c.status msg)
            then discarded
            else (1, (rewrite keyspace key (stamped c waiting now msg) d).1))
  unfolding reload_one ◌>>=◌ pure message
  one_step id d = elim (Option-cases (d.texts (message (new_keys name) id))) [
    | inl e ↦ rw e refl
    | inr (text, e) ↦ elim (Option-cases (c.decode text)) [
      | inl f ↦ rw e (rw f refl)
      | inr (msg, f) ↦ elim (Bool-cases (skip_stale && is_stale (c.status msg))) [
        | inl g ↦ rw e (rw f (rw g refl))
        | inr g ↦ rw e (rw f (rw g refl))
      ]
    ]
  ]

  seen-one :
      (id : String) (d : Keyspace)
      → seen name (one id d) ≡ reload_one_spec c now skip_stale id (observe name d)
  unfolding reload_one_spec
  seen-one id d =
      let before = observe name d in
      ap (seen name) (one_step id d)
      ∙ rw (texts-observe name id d) (elim (Option-cases (before.entity id)) [
        | inl e ↦ rw e (λ i. (0, observe-lrem_waiting name id d i))
        | inr (text, e) ↦ elim (Option-cases (c.decode text)) [
          | inl f ↦ rw e (rw f (λ i. (0, observe-lrem_waiting name id d i)))
          | inr (msg, f) ↦ elim (Bool-cases (skip_stale && is_stale (c.status msg))) [
            | inl g ↦ rw e (rw f (rw g (λ i. (0, observe-lrem_waiting name id d i))))
            | inr g ↦
                rw e
                  (rw f (rw g (λ i. (1, observe-restamped name c waiting now id text msg d e f i))))
          ]
        ]
      ])

  -- The keyspace after RPOPLPUSH.
  abbrev moved : Source → String → List String → Keyspace → Keyspace
  moved src id rest d =
      let taken = update d.lists (source_key src (new_keys name)) rest in
      record d { lists = update taken (new_keys name).waiting (id ∷ taken (new_keys name).waiting) }

  observe-moved :
      (src : Source) (id : String) (rest : List String) (d : Keyspace)
      → observe name (moved src id rest d)
        ≡ set_source src rest (record (observe name d) { waiting = id ∷ (observe name d).waiting })
  unfolding observe new_keys
  observe-moved timeout id rest d = simp key_laws
  observe-moved failed id rest d = simp key_laws

  abbrev run : Source → ℕ → ℕ → Program Keyspace ℕ
  run src rounds count =
      let k = new_keys name in
      reload_loop keyspace c rounds (source_key src k) k.waiting k.message_prefix now skip_stale
        count

  source_at : Source → Keyspace → List String
  source_at src d = d.lists (source_key src (new_keys name))

  run_empty :
      (src : Source) (rounds count : ℕ) (d : Keyspace)
      → source_at src d ≡ []
      → run src (suc rounds) count d ≡ (count, d)
  unfolding reload_loop ◌>>=◌ pure unsnoc source_at
  run_empty src rounds count d h = rw h refl

  run_step :
      (src : Source) (rounds count : ℕ) (id : String) (rest : List String) (d : Keyspace)
      → unsnoc (source_at src d) ≡ some (rest, id)
      → run src (suc rounds) count d
        ≡ (let (n, d') = one id (moved src id rest d) in run src rounds (count + n) d')
  unfolding reload_loop ◌>>=◌ source_at
  run_step src rounds count id rest d h = rw h refl

  source_at-observe :
      (src : Source) (d : Keyspace) → source_at src d ≡ source_list src (observe name d)
  unfolding source_at observe
  source_at-observe timeout d = refl
  source_at-observe failed d = refl

  -- One round leaves the source as it is.
  one_source :
      (src : Source) (id : String) (d : Keyspace)
      → source_list src (observe name (one id d).1) ≡ source_list src (observe name d)
  one_source src id d =
      ap (λ (p : ℕ × Channel). source_list src p.1) (seen-one id d)
      ∙ source_list-one c now skip_stale src id (observe name d)

  seen-run :
      (src : Source) (rounds : ℕ) (queue : List String) (count : ℕ) (d : Keyspace)
      → source_at src d ≡ reverse queue
      → seen name (run src rounds count d)
        ≡ reload_from c now skip_stale src rounds queue count (observe name d)
  unfolding reload_from pure
  seen-run src zero queue count d h = unfold reload_loop in refl
  seen-run src (suc rounds) [] count d h = ap (seen name) (run_empty src rounds count d h)
  seen-run src (suc rounds) (id ∷ younger) count d h =
      let d1 = moved src id (reverse younger) d in
      ap (seen name)
        (run_step src rounds count id (reverse younger) d (ap unsnoc h ∙ unsnoc-reverse younger id))
      ∙ seen-run src rounds younger (count + (one id d1).0) (one id d1).1 (
          source_at-observe src (one id d1).1
          ∙ one_source src id d1
          ∙ ap (source_list src) (observe-moved src id (reverse younger) d)
          ∙ source_list-set_source src (reverse younger) _)
      ∙ ap (λ (p : ℕ × Channel). reload_from c now skip_stale src rounds younger (count + p.0) p.1)
          (seen-one id d1
            ∙ ap (reload_one_spec c now skip_stale id) (observe-moved src id (reverse younger) d))

  reload_lem :
      (src : Source) (d : Keyspace)
      → seen name (
          reload keyspace c
            (source_key src (new_keys name))
            (new_keys name).waiting
            (new_keys name).message_prefix
            now
            skip_stale
            d)
        ≡ reload_spec c now skip_stale src (observe name d)
  unfolding reload reload_spec
  reload_lem src d =
      seen-run src 100 (reverse (source_at src d)) 0 d (sym (reverse-reverse _))
      ∙ ap (λ l. reload_from c now skip_stale src 100 (reverse l) 0 (observe name d))
          (source_at-observe src d)

-- On a server that behaves as documented, one run of the reload script takes the hundred oldest ids
-- out of timeout or failed. Each one with a readable text, not stale if stale ones are skipped, is
-- put on the left of waiting with the status waiting, and counted; any other one is thrown away, out
-- of waiting too. The rest of the channel is as it was.
pub reload_refines :
    (s : Server) (r : IsRedis s) (c : Cjson) (name : String) (now : ℤ) (skip_stale : Bool)
    (src : Source) (db : s.Db)
    → let k = new_keys name in
      let (count, db') =
        reload s c (source_key src k) k.waiting k.message_prefix now skip_stale db in
      (count, observe name (r.view db'))
      ≡ reload_spec c now skip_stale src (observe name (r.view db))
reload_refines s r c name now skip_stale src db =
    ap (seen name) ((reload-Agrees s r c _ _ _ now skip_stale).at db)
    ∙ reload_lem name c now skip_stale src (r.view db)

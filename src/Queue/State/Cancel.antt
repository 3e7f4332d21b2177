-- ===== src/Queue/State/Cancel.antt =====
-- The specification of `cancelByIDScript` of pkg/queue/lua.go on a channel's state.
use async_queue_go.Prelude.{
  ℕ, String, ◌≡◌, refl, sym, ap, ◌∙◌, true, false, List, [], ◌∷◌, Option, none, some, arith,
  if◌then◌else◌, ltb, str_eq, eq_iff, Option-cases, Bool-cases, inl, inr,
}
use async_queue_go.Prelude.Int.{ℤ, pos, negsuc, ltb_ℤ}
use async_queue_go.Redis.Keyspace.{Keyspace, zremove, zcount, score, is_some}
use async_queue_go.Redis.Program.{pure, ◌>>=◌, on, to_lua, not_nil, when}
use async_queue_go.Redis.Server.{Server, keyspace}
use async_queue_go.Redis.Agreement.{IsRedis}
use async_queue_go.Core.Message.{canceled}
use async_queue_go.Queue.Keys.{new_keys, message, bucket}
use async_queue_go.Queue.Keys.Distinct.{key_laws}
use async_queue_go.Queue.Cjson.{Cjson, stamped}
use async_queue_go.Queue.Lua.Manage.{mark_canceled, cancel_by_id}
use async_queue_go.Queue.Lua.Agreement.{cancel_by_id-Agrees}
use async_queue_go.Queue.State.{Channel, observe}
use async_queue_go.Queue.State.Observe.{seen, observe-del, texts-observe, observe-zrem_delayed}
use async_queue_go.Queue.State.Marking.{when-Wrote, stored}
use async_queue_go.Queue.State.Commit.{observe-Wrote, channel_ext}

-- The stored text of a canceled message; one that cannot be read is deleted.
abbrev pub canceled_text : (c : Cjson) → ℤ → Option String → Option String
canceled_text c now raw =
    on raw none λ text. on (c.decode text) none λ msg. some (stamped c canceled now msg)

-- Only a delayed message is canceled; the code says where another one is.
unfoldable pub cancel_spec : Cjson → ℤ → String → Channel → ℤ × Channel
cancel_spec c now id o =
    if ltb 0 (zcount id o.delayed)
    then (
      pos 1,
      record o {
        delayed = zremove id o.delayed;
        entity = λ j. if str_eq id j then canceled_text c now (o.entity id) else o.entity j;
      },
    )
    else if is_some (score id o.reserved)
    then (negsuc 1, o)
    else (negsuc 0, o)

zremove_absent : (id : String) (l : List (String × ℤ)) → zcount id l ≡ 0 → zremove id l ≡ l
unfolding zcount zremove
zremove_absent id [] h = refl
zremove_absent id ((y, s) ∷ l) h = ground (arith, zremove_absent id l)

module _ (name : String) (c : Cjson) (now : ℤ) (id : String) where
  abbrev key : String
  key = message (new_keys name) id

  -- SET, with the time to live kept in milliseconds.
  abbrev kept : String → Keyspace → Keyspace
  kept text d =
      let pttl = (keyspace.pttl key d).0 in
      (when (ltb_ℤ (pos 0) pttl) (keyspace.pexpire key pttl) (stored key text d)).1

  mark_step :
      (d : Keyspace)
      → (mark_canceled keyspace c key now d).1
        ≡ on (d.texts key) d λ text.
          on (c.decode text) (keyspace.del key d).1 λ msg. kept (stamped c canceled now msg) d
  unfolding mark_canceled ◌>>=◌ pure
  mark_step d = elim (Option-cases (d.texts key)) [
    | inl e ↦ rw e refl
    | inr (text, e) ↦ elim (Option-cases (c.decode text)) [
      | inl f ↦ rw e (rw f refl)
      | inr (msg, f) ↦ rw e (rw f refl)
    ]
  ]

  -- The channel with another text for the message.
  abbrev retexted : Option String → Channel → Channel
  retexted v o = record o { entity = λ j. if str_eq id j then v else o.entity j }

  same_text : (o : Channel) → o ≡ retexted (o.entity id) o
  same_text o = channel_ext _ _ refl refl refl refl refl λ j. elim (Bool-cases (str_eq id j)) [
    | inl h ↦ rw h (ap o.entity (sym ((eq_iff id j).0 h)))
    | inr h ↦ rw h refl
  ]

  observe-mark_canceled :
      (d : Keyspace)
      → observe name (mark_canceled keyspace c key now d).1
        ≡ retexted (canceled_text c now ((observe name d).entity id)) (observe name d)
  observe-mark_canceled d =
      let before = observe name d in
      let at = λ (v : Option String). retexted v before in
      ap (observe name) (mark_step d)
      ∙ rw (texts-observe name id d) (elim (Option-cases (before.entity id)) [
        | inl e ↦ rw e (same_text before ∙ ap at e)
        | inr (text, e) ↦ elim (Option-cases (c.decode text)) [
          | inl f ↦ rw e (rw f (observe-del name id d))
          | inr (msg, f) ↦ rw e (
              rw f (
                observe-Wrote name id (some (stamped c canceled now msg)) d _
                  (when-Wrote 1 _ key (stamped c canceled now msg) (keyspace.pttl key d).0 d refl)))
        ]
      ])

  -- `~= nil` holds of every reply to LPOS, since Lua gets false for nil.
  not_nil_always : (o : Option ℕ) → not_nil (to_lua o) ≡ true
  not_nil_always none = refl
  not_nil_always (some n) = refl

  abbrev without : Keyspace → Keyspace
  without d = (keyspace.zrem (new_keys name).delayed id d).1

  -- What the script computes, with its tests read off the state that they are about.
  outcome : Keyspace → ℤ × Keyspace
  outcome d =
      if ltb 0 (zcount id (observe name d).delayed)
      then (pos 1, (mark_canceled keyspace c key now (without d)).1)
      else if is_some (score id (observe name d).reserved)
      then (negsuc 1, without d)
      else (negsuc 0, without d)

  cancel-outcome :
      (d : Keyspace)
      → cancel_by_id keyspace c
          (new_keys name).waiting
          (new_keys name).reserved
          (new_keys name).delayed
          key
          id
          now
          d
        ≡ outcome d
  unfolding cancel_by_id ◌>>=◌ pure outcome observe new_keys
  cancel-outcome d = elim (Bool-cases (ltb 0 (zcount id (d.zsets (bucket name "delayed"))))) [
    | inl h ↦ rw h refl
    | inr h ↦ elim (Bool-cases (is_some (score id (d.zsets (bucket name "reserved"))))) [
      | inl g ↦ simp (key_laws, h, g)
      | inr g ↦ simp (key_laws, h, g, not_nil_always)
    ]
  ]

  zcount_none : (o : Channel) → ltb 0 (zcount id o.delayed) ≡ false → zcount id o.delayed ≡ 0
  zcount_none o h = ground arith

  seen-outcome : (d : Keyspace) → seen name (outcome d) ≡ cancel_spec c now id (observe name d)
  unfolding outcome cancel_spec
  seen-outcome d =
      let before = observe name d in
      let unchanged = λ (h : zcount id before.delayed ≡ 0).
        observe-zrem_delayed name id d
        ∙ ap (λ l. record before { delayed = l }) (zremove_absent id before.delayed h) in
      let marked =
        observe-mark_canceled (without d)
        ∙ ap (λ (o : Channel). retexted (canceled_text c now (o.entity id)) o)
            (observe-zrem_delayed name id d) in
      elim (Bool-cases (ltb 0 (zcount id before.delayed))) [
        | inl h ↦ rw h (λ i. (pos 1, marked i))
        | inr h ↦ elim (Bool-cases (is_some (score id before.reserved))) [
          | inl g ↦ rw h (rw g (λ i. (negsuc 1, unchanged (zcount_none before h) i)))
          | inr g ↦ rw h (rw g (λ i. (negsuc 0, unchanged (zcount_none before h) i)))
        ]
      ]

-- On a server that behaves as documented, the cancel script changes the channel only if the message
-- is delayed: then it answers 1, takes the id out of delayed, and sets the status of its stored text
-- to canceled, or deletes a text that cannot be read. It answers -2 for a message that is reserved
-- and not delayed, and -1 for every other one.
pub cancel_refines :
    (s : Server) (r : IsRedis s) (c : Cjson) (name : String) (now : ℤ) (id : String) (db : s.Db)
    → let k = new_keys name in
      let (code, db') = cancel_by_id s c k.waiting k.reserved k.delayed (message k id) id now db in
      (code, observe name (r.view db')) ≡ cancel_spec c now id (observe name (r.view db))
cancel_refines s r c name now id db =
    ap (seen name) ((cancel_by_id-Agrees s r c _ _ _ _ id now).at db)
    ∙ ap (seen name) (cancel-outcome name c now id (r.view db))
    ∙ seen-outcome name c now id (r.view db)

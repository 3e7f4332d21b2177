-- ===== src/Queue/State/Forward.antt =====
-- The specification of `moveScript`, as the forwarder runs it from delayed to waiting, and of
-- `moveTimeoutScript`, from reserved to timeout (pkg/queue/lua.go), on a channel's state.
use async_queue_go.Prelude.{
  ℕ, ◌+◌, String, ◌≡◌, refl, ap, ◌∙◌, List, [], ◌∷◌, if◌then◌else◌, length, take, Option-cases,
  Bool-cases, inl, inr,
}
use async_queue_go.Prelude.Int.{ℤ}
use async_queue_go.Redis.Keyspace.{Keyspace, remove, due, zremove, is_some}
use async_queue_go.Redis.Program.{Program, pure, ◌>>=◌, on}
use async_queue_go.Redis.Server.{Server, keyspace}
use async_queue_go.Redis.Agreement.{IsRedis}
use async_queue_go.Core.Message.{waiting}
use async_queue_go.Queue.Keys.{new_keys, message}
use async_queue_go.Queue.Cjson.{Cjson, stamped}
use async_queue_go.Queue.Lua.Commit.{rewrite}
use async_queue_go.Queue.Lua.Move.{move_one, move_each, move, move_timeout_each, move_timeout}
use async_queue_go.Queue.Lua.Agreement.{move-Agrees, move_timeout-Agrees}
use async_queue_go.Queue.State.{Channel, observe, mark_entity}
use async_queue_go.Queue.State.Observe.{
  seen, forget, observe-del, texts-observe, observe-zrem_delayed, observe-lrem_waiting,
  observe-lpush_timeout, observe-restamped,
}
use async_queue_go.Queue.State.Commit.{observe-lpush_waiting, observe-zrem_reserved}

module _ (c : Cjson) (now : ℤ) where
  -- One due message: to waiting, if its text can be read.
  unfoldable pub forward_one : String → Channel → Channel
  forward_one id o =
      let freed = record o { delayed = zremove id o.delayed } in
      on (o.entity id) (record freed { waiting = remove id o.waiting })
        λ text.
          on (c.decode text) (record freed { entity = forget id o.entity })
            λ msg. record freed {
              waiting = id ∷ o.waiting;
              entity = mark_entity c waiting now id o.entity;
            }

  unfoldable pub forward_each : List String → Channel → Channel
  forward_each [] o = o
  forward_each (id ∷ ids) o = forward_each ids (forward_one id o)

  -- At most a hundred, by their scores.
  unfoldable pub forward_spec : Channel → ℕ × Channel
  forward_spec o = let ids = take 100 (due now o.delayed) in (length ids, forward_each ids o)

-- One expired reservation: to timeout, if something is stored for it.
unfoldable pub expire_one : String → Channel → Channel
expire_one id o =
    let freed = record o { reserved = zremove id o.reserved } in
    if is_some (o.entity id) then record freed { timeout = id ∷ o.timeout } else freed

-- The number of messages that are moved, after those counted so far.
unfoldable pub expire_each : ℕ → List String → Channel → ℕ × Channel
expire_each moved [] o = (moved, o)
expire_each moved (id ∷ ids) o =
    expire_each (if is_some (o.entity id) then moved + 1 else moved) ids (expire_one id o)

unfoldable pub expire_spec : ℤ → Channel → ℕ × Channel
expire_spec now o = expire_each 0 (take 100 (due now o.reserved)) o

module _ (name : String) where
  module _ (c : Cjson) (now : ℤ) where
    abbrev forward : String → Program Keyspace (Unit {0})
    forward id =
        let k = new_keys name in
        move_one keyspace c k.delayed k.waiting k.message_prefix now waiting id

    abbrev freed : String → Keyspace → Keyspace
    freed id d = (keyspace.zrem (new_keys name).delayed id d).1

    forward_step :
        (id : String) (d : Keyspace)
        → (forward id d).1 ≡ (
            let key = message (new_keys name) id in
            on (d.texts key) (keyspace.lrem (new_keys name).waiting id (freed id d)).1 λ text.
              on (c.decode text) (keyspace.del key (freed id d)).1 λ msg.
                (keyspace.lpush
                  (new_keys name).waiting
                  id
                  (rewrite keyspace key (stamped c waiting now msg) (freed id d)).1).1)
    unfolding move_one ◌>>=◌ pure message
    forward_step id d = elim (Option-cases (d.texts (message (new_keys name) id))) [
      | inl e ↦ rw e refl
      | inr (text, e) ↦ elim (Option-cases (c.decode text)) [
        | inl f ↦ rw e (rw f refl)
        | inr (msg, f) ↦ rw e (rw f refl)
      ]
    ]

    observe-forward :
        (id : String) (d : Keyspace)
        → observe name (forward id d).1 ≡ forward_one c now id (observe name d)
    unfolding forward_one
    observe-forward id d =
        ap (observe name) (forward_step id d)
        ∙ rw (texts-observe name id d) (elim (Option-cases ((observe name d).entity id)) [
          | inl e ↦ rw e (
              observe-lrem_waiting name id (freed id d)
              ∙ ap (λ (o : Channel). record o { waiting = remove id o.waiting })
                  (observe-zrem_delayed name id d))
          | inr (text, e) ↦ elim (Option-cases (c.decode text)) [
            | inl g ↦ rw e (
                rw g (
                  observe-del name id (freed id d)
                  ∙ ap (λ (o : Channel). record o { entity = forget id o.entity })
                      (observe-zrem_delayed name id d)))
            | inr (msg, g) ↦ rw e (
                rw g (
                  observe-lpush_waiting name id _
                  ∙ ap (λ (o : Channel). record o { waiting = id ∷ o.waiting })
                      (observe-restamped name c waiting now id text msg (freed id d)
                          (ap (λ (o : Channel). o.entity id) (observe-zrem_delayed name id d) ∙ e) g
                        ∙ ap
                            (λ (o : Channel). record o {
                              entity = mark_entity c waiting now id o.entity;
                            })
                            (observe-zrem_delayed name id d))))
          ]
        ])

    observe-forward_each :
        (ids : List String) (d : Keyspace)
        → observe name
            (move_each keyspace c
              (new_keys name).delayed
              (new_keys name).waiting
              (new_keys name).message_prefix
              now
              waiting
              ids
              d).1
          ≡ forward_each c now ids (observe name d)
    unfolding move_each ◌>>=◌ pure forward_each
    observe-forward_each [] d = refl
    observe-forward_each (id ∷ ids) d =
        observe-forward_each ids (forward id d).1
        ∙ ap (forward_each c now ids) (observe-forward id d)

    forward_lem :
        (d : Keyspace)
        → seen name (
            move keyspace c
              (new_keys name).delayed
              (new_keys name).waiting
              (new_keys name).message_prefix
              now
              waiting
              d)
          ≡ forward_spec c now (observe name d)
    unfolding move ◌>>=◌ pure forward_spec
    forward_lem d =
        (λ i. (
          length (take 100 (due now (d.zsets (new_keys name).delayed))),
          observe-forward_each (take 100 (due now (d.zsets (new_keys name).delayed))) d i,
        ))
        ∙ unfold observe in refl

  -- One round of the loop.
  abbrev expired : String → Keyspace → Keyspace
  expired id d =
      ((if is_some (d.texts (message (new_keys name) id))
          then keyspace.lpush (new_keys name).timeout id
          else pure tt)
        (keyspace.zrem (new_keys name).reserved id d).1).1

  observe-expire :
      (id : String) (d : Keyspace) → observe name (expired id d) ≡ expire_one id (observe name d)
  unfolding expire_one pure
  observe-expire id d =
      rw (expired, texts-observe name id d)
        (elim (Bool-cases (is_some ((observe name d).entity id))) [
          | inl e ↦ rw e (
              observe-lpush_timeout name id _
              ∙ ap (λ (o : Channel). record o { timeout = id ∷ o.timeout })
                  (observe-zrem_reserved name id d))
          | inr e ↦ rw e (observe-zrem_reserved name id d)
        ])

  abbrev expire : ℕ → List String → Program Keyspace ℕ
  expire moved ids =
      let k = new_keys name in
      move_timeout_each keyspace k.reserved k.timeout k.message_prefix moved ids

  expire_step :
      (moved : ℕ) (id : String) (ids : List String) (d : Keyspace)
      → expire moved (id ∷ ids) d
        ≡ expire
            (if is_some (d.texts (message (new_keys name) id)) then moved + 1 else moved)
            ids
            (expired id d)
  unfolding move_timeout_each ◌>>=◌ pure message
  expire_step moved id ids d = refl

  seen-expire_each :
      (moved : ℕ) (ids : List String) (d : Keyspace)
      → seen name (
          move_timeout_each keyspace
            (new_keys name).reserved
            (new_keys name).timeout
            (new_keys name).message_prefix
            moved
            ids
            d)
        ≡ expire_each moved ids (observe name d)
  unfolding move_timeout_each ◌>>=◌ pure expire_each message
  seen-expire_each moved [] d = refl
  seen-expire_each moved (id ∷ ids) d =
      ap (seen name) (expire_step moved id ids d)
      ∙ seen-expire_each
          (if is_some (d.texts (message (new_keys name) id)) then moved + 1 else moved) ids
          (expired id d)
      ∙ (λ i.
          expire_each (if is_some (texts-observe name id d i) then moved + 1 else moved) ids
            (observe-expire id d i))

  expire_lem :
      (now : ℤ) (d : Keyspace)
      → seen name (
          move_timeout keyspace
            (new_keys name).reserved
            (new_keys name).timeout
            (new_keys name).message_prefix
            now
            d)
        ≡ expire_spec now (observe name d)
  unfolding move_timeout ◌>>=◌ expire_spec
  expire_lem now d =
      seen-expire_each 0 (take 100 (due now (d.zsets (new_keys name).reserved))) d
      ∙ unfold observe in refl

-- On a server that behaves as documented, a run of the forwarder's first script takes the first
-- hundred due ids out of delayed, in the order of their scores. Each one with a readable text is put
-- on the left of waiting with the status waiting; one with an unreadable text loses the text, and one
-- without a text is also taken out of waiting. The reply is the number of ids that were due.
pub forward_refines :
    (s : Server) (r : IsRedis s) (c : Cjson) (name : String) (now : ℤ) (db : s.Db)
    → let k = new_keys name in
      let (moved, db') = move s c k.delayed k.waiting k.message_prefix now waiting db in
      (moved, observe name (r.view db')) ≡ forward_spec c now (observe name (r.view db))
forward_refines s r c name now db =
    ap (seen name) ((move-Agrees s r c _ _ _ now waiting).at db)
    ∙ forward_lem name c now (r.view db)

-- On a server that behaves as documented, a run of the forwarder's second script takes the first
-- hundred reservations whose deadline has passed out of reserved, and puts those with a stored text
-- on the left of timeout; no stored text changes, and the reply counts the ids that were put there.
pub expire_refines :
    (s : Server) (r : IsRedis s) (name : String) (now : ℤ) (db : s.Db)
    → let k = new_keys name in
      let (moved, db') = move_timeout s k.reserved k.timeout k.message_prefix now db in
      (moved, observe name (r.view db')) ≡ expire_spec now (observe name (r.view db))
expire_refines s r name now db =
    ap (seen name) ((move_timeout-Agrees s r _ _ _ now).at db) ∙ expire_lem name now (r.view db)

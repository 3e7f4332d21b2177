-- ===== src/Queue/State/Enqueue.antt =====
-- The specification of `pushScript` of pkg/queue/lua.go on a channel's state: the producer's rows of
-- the transition matrix in docs/guide.md.
use async_queue_go.Prelude.{String, ◌≡◌, refl, ap, ◌∙◌, some, ◌∷◌, if◌then◌else◌, str_eq}
use async_queue_go.Prelude.Int.{ℤ, pos, ltb_ℤ}
use async_queue_go.Redis.Keyspace.{Keyspace, zremove, zinsert}
use async_queue_go.Redis.Program.{◌>>=◌}
use async_queue_go.Redis.Server.{Server, keyspace}
use async_queue_go.Redis.Agreement.{IsRedis}
use async_queue_go.Queue.Keys.{new_keys, message}
use async_queue_go.Queue.Keys.Distinct.{key_laws}
use async_queue_go.Queue.Lua.Commit.{Mode, to_waiting, to_delayed, push, enqueue}
use async_queue_go.Queue.Lua.Agreement.{push-Agrees}
use async_queue_go.Queue.State.{Channel, observe}
use async_queue_go.Queue.State.Marking.{when-Wrote}
use async_queue_go.Queue.State.Commit.{observe-Wrote, observe-lpush_waiting}

-- The bucket that the mode names: the left end of waiting, or delayed at its score.
abbrev pub enqueue_spec : Mode → ℤ → String → Channel → Channel
enqueue_spec to_waiting score id o = record o { waiting = id ∷ o.waiting }
enqueue_spec to_delayed score id o = record o { delayed = zinsert id score (zremove id o.delayed) }

-- The text is stored, and the id enqueued.
unfoldable pub push_spec : Mode → ℤ → String → String → Channel → Channel
push_spec mode score id raw o =
    enqueue_spec mode score id
      (record o { entity = λ j. if str_eq id j then some raw else o.entity j })

module _ (name : String) where
  observe-zadd_delayed :
      (score : ℤ) (id : String) (d : Keyspace)
      → observe name (keyspace.zadd (new_keys name).delayed score id d).1
        ≡ enqueue_spec to_delayed score id (observe name d)
  unfolding observe new_keys
  observe-zadd_delayed score id d = simp key_laws

  pub observe-enqueue :
      (mode : Mode) (score : ℤ) (id : String) (d : Keyspace)
      → observe name
          (enqueue keyspace (new_keys name).waiting (new_keys name).delayed mode score id d).1
        ≡ enqueue_spec mode score id (observe name d)
  observe-enqueue to_waiting score id d = observe-lpush_waiting name id d
  observe-enqueue to_delayed score id d = observe-zadd_delayed score id d

  push_lem :
      (id raw : String) (mode : Mode) (score ttl : ℤ) (d : Keyspace)
      → observe name
          (push keyspace
            (new_keys name).waiting
            (new_keys name).delayed
            (message (new_keys name) id)
            id
            raw
            mode
            score
            ttl
            d).1
        ≡ push_spec mode score id raw (observe name d)
  unfolding push ◌>>=◌ push_spec
  push_lem id raw mode score ttl d =
      observe-enqueue mode score id _
      ∙ ap (enqueue_spec mode score id) (
          observe-Wrote name id (some raw) d _
            (when-Wrote 1000 (ltb_ℤ (pos 0) ttl) (message (new_keys name) id) raw ttl d refl))

-- On a server that behaves as documented, the push script stores the text of the message and, by
-- its mode, puts the id on the left of waiting or into delayed at its score; nothing else of the
-- channel changes, whatever the time to live.
pub push_refines :
    (s : Server) (r : IsRedis s) (name id raw : String) (mode : Mode) (score ttl : ℤ) (db : s.Db)
    → let k = new_keys name in
      observe name (r.view (push s k.waiting k.delayed (message k id) id raw mode score ttl db).1)
      ≡ push_spec mode score id raw (observe name (r.view db))
push_refines s r name id raw mode score ttl db =
    ap (λ p. observe name p.1) ((push-Agrees s r _ _ _ id raw mode score ttl).at db)
    ∙ push_lem name id raw mode score ttl (r.view db)

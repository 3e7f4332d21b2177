-- ===== src/Queue/RedisDriver/Forwarding.antt =====
-- `ForwardMessages` of pkg/queue/redis_driver.go: both scripts of a round of the forwarder.
use async_queue_go.Prelude.{ℕ, String, ◌≡◌, refl, ap, ◌∙◌}
use async_queue_go.Prelude.Int.{ℤ, pos, ◌+ℤ◌, int64}
use async_queue_go.Redis.Server.{Server}
use async_queue_go.Redis.Agreement.{IsRedis}
use async_queue_go.Core.Message.{waiting}
use async_queue_go.Queue.Keys.{new_keys}
use async_queue_go.Queue.Cjson.{Cjson}
use async_queue_go.Queue.Lua.Move.{move, move_timeout}
use async_queue_go.Queue.State.{Channel, observe}
use async_queue_go.Queue.State.Forward.{forward_spec, expire_spec, forward_refines, expire_refines}
use async_queue_go.Queue.RedisDriver.{ok, Reply, Libraries, forward_messages}
use async_queue_go.Queue.RedisDriver.Replies.{IsConnected}

-- What is due within a second moves to waiting, and then what has run out to timeout.
unfoldable pub forward_messages_spec : Cjson → ℤ → Channel → Reply (ℕ × ℕ) × Channel
forward_messages_spec c now o =
    let (moved, o1) = forward_spec c (int64 (now +ℤ pos 1)) o in
    let (expired, o2) = expire_spec now o1 in (ok (moved, expired), o2)

module _ (s : Server) (r : IsRedis s) (l : Libraries s) (now : ℤ) (name : String) (db : s.Db)
    (up : IsConnected l.client) where
  abbrev moved : ℕ × s.Db
  moved =
      let k = new_keys name in
      move s l.cjson k.delayed k.waiting k.message_prefix (int64 (now +ℤ pos 1)) waiting db

  abbrev expired : ℕ × s.Db
  expired =
      let k = new_keys name in move_timeout s k.reserved k.timeout k.message_prefix now moved.1

  forward_messages_sent : forward_messages s l now name db ≡ (ok (moved.0, expired.0), expired.1)
  unfolding forward_messages
  forward_messages_sent = rw up (rw up refl)

  -- On a server that behaves as documented and is reachable, one call of `ForwardMessages` is both
  -- moves: of the first hundred messages that are due within a second, from delayed to waiting, and
  -- then of the first hundred whose reservation has run out, from reserved to timeout, where the
  -- stored texts, with their status, stay as they are; with the two numbers as its reply.
  pub forward_messages_refines :
      let (reply, db') = forward_messages s l now name db in
      (reply, observe name (r.view db'))
      ≡ forward_messages_spec l.cjson now (observe name (r.view db))
  unfolding forward_messages_spec
  forward_messages_refines =
      ap (λ p. (p.0, observe name (r.view p.1))) forward_messages_sent
      ∙ ap (λ p. (ok (moved.0, p.0), p.1)) (expire_refines s r name now moved.1)
      ∙ ap (λ p. let e = expire_spec now p.1 in (ok (p.0, e.0), e.1))
          (forward_refines s r l.cjson name (int64 (now +ℤ pos 1)) db)

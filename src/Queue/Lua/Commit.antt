-- ===== src/Queue/Lua/Commit.antt =====
-- The scripts that enqueue a message and that commit a handler's result: `pushScript`, `ackScript`,
-- `failScript`, `dropScript` and `requeueScript` of pkg/queue/lua.go.
use async_queue_go.Prelude.{String, Bool}
use async_queue_go.Prelude.Int.{ℤ, pos, ltb_ℤ}
use async_queue_go.Redis.Program.{Program, pure, ◌>>=◌, ◌>>◌, when, on}
use async_queue_go.Redis.Server.{Server}
use async_queue_go.Core.Message.{Status, done, failed, dropped, waiting}
use async_queue_go.Queue.Cjson.{Cjson, stamped}

-- The `mode` argument of the scripts.
pub data Mode : Type 0 where
  to_waiting to_delayed : Mode

module _ (s : Server) where
  abbrev pub enqueue : String → String → Mode → ℤ → String → Program s.Db (Unit {0})
  enqueue waiting_key delayed_key to_waiting score id = s.lpush waiting_key id
  enqueue waiting_key delayed_key to_delayed score id = s.zadd delayed_key score id

  -- redis.call('SET', ...) clears the time to live; it is put back if TTL reported one.
  unfoldable pub rewrite : String → String → Program s.Db (Unit {0})
  rewrite msg_key raw = do
    ttl ← s.ttl msg_key
    s.set msg_key raw
    when (ltb_ℤ (pos 0) ttl) (s.expire msg_key ttl)

  unfoldable pub push :
      String → String → String → String → String → Mode → ℤ → ℤ → Program s.Db (Unit {0})
  push waiting_key delayed_key msg_key id msg_raw mode score ttl = do
    s.set msg_key msg_raw
    when (ltb_ℤ (pos 0) ttl) (s.expire msg_key ttl)
    enqueue waiting_key delayed_key mode score id

  module _ (c : Cjson) where
    -- The common part of the commit scripts: true if the message could be read and was rewritten.
    unfoldable pub mark : Status → ℤ → String → Program s.Db Bool
    mark status now msg_key = do
      raw ← s.get msg_key
      on raw (pure Bool.false) λ text.
          on (c.decode text) (pure Bool.false)
            λ msg. do rewrite msg_key (stamped c status now msg); pure Bool.true

    unfoldable pub ack : String → String → String → ℤ → Program s.Db (Unit {0})
    ack reserved_key msg_key id now = do s.zrem reserved_key id; mark done now msg_key; pure tt

    unfoldable pub fail : String → String → String → String → ℤ → Program s.Db (Unit {0})
    fail reserved_key failed_key msg_key id now = do
      s.zrem reserved_key id
      found ← mark failed now msg_key
      when found (s.lpush failed_key id)

    unfoldable pub drop : String → String → String → ℤ → Program s.Db (Unit {0})
    drop reserved_key msg_key id now = do s.zrem reserved_key id; mark dropped now msg_key; pure tt

    unfoldable pub requeue : String → String → String → String → ℤ → Program s.Db (Unit {0})
    requeue reserved_key waiting_key msg_key id now = do
      s.zrem reserved_key id
      found ← mark waiting now msg_key
      when found (s.lpush waiting_key id)

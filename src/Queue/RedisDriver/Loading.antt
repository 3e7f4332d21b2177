-- ===== src/Queue/RedisDriver/Loading.antt =====
-- How the driver (pkg/queue/redis_driver.go) reads the stored text of a message.
use async_queue_go.Prelude.{String, ◌≡◌, refl, ap, some}
use async_queue_go.Prelude.Int.{ℤ}
use async_queue_go.Redis.Server.{Server}
use async_queue_go.Redis.Agreement.{IsRedis}
use async_queue_go.Core.Message.{Message, normalise, decode_message}
use async_queue_go.Queue.Keys.{new_keys, message}
use async_queue_go.Queue.State.{observe}
use async_queue_go.Queue.RedisDriver.{ok, Libraries, load_message}
use async_queue_go.Queue.RedisDriver.Replies.{IsConnected}

module _ (s : Server) (r : IsRedis s) (channel id : String) (db : s.Db) where
  -- The state after the text was read.
  abbrev pub after_get : s.Db
  after_get = (s.get (message (new_keys channel) id) db).1

  -- Reading changes nothing of the channel.
  pub observe-after_get : observe channel (r.view after_get) ≡ observe channel (r.view db)
  observe-after_get = ap (λ p. observe channel p.1) ((r.get (message (new_keys channel) id)).at db)

  pub message_loaded :
      (l : Libraries s) (now : ℤ) (raw : String) (m : Message)
      → IsConnected l.client
      → (observe channel (r.view db)).entity id ≡ some raw
      → l.json.unmarshal raw ≡ some m
      → load_message s l now channel id db ≡ (ok (normalise now m), after_get)
  unfolding load_message decode_message observe
  message_loaded l now raw m up stored read = rw up (
      rw (ap (λ p. p.0) ((r.get (message (new_keys channel) id)).at db)) (rw stored (rw read refl)))

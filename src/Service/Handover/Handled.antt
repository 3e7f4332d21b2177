-- ===== src/Service/Handover/Handled.antt =====
-- The whole way of a message: `PushMessage` of asyncqueue/asyncqueue.go, `Pop` of
-- pkg/queue/redis_driver.go, and `handleOne` of pkg/queue/consumer.go with its commit.
use async_queue_go.Prelude.{ℕ, String, ◌≡◌, refl, ap, ◌∙◌, Bool, false, [], some, str_eq}
use text.Mathlib.TextPositions.{eq_refl}
use async_queue_go.Prelude.Int.{ℤ, pos, ◌≤ℤ◌}
use async_queue_go.Redis.Server.{Server}
use async_queue_go.Redis.Agreement.{IsRedis}
use async_queue_go.Core.Message.{Message}
use async_queue_go.Queue.State.{observe}
use async_queue_go.Queue.RedisDriver.{Libraries, Error, ok, pop, deadline, retried_message}
use async_queue_go.Queue.RedisDriver.Replies.{IsConnected}
use async_queue_go.Queue.Consumer.{Consumer, Hook, Stats, handle_one}
use async_queue_go.Queue.Consumer.Commits.{expected}
use async_queue_go.Queue.Delivery.{redis_driver, outcome, delivery_refines}
use async_queue_go.Service.Facade.{prepared, push_message, redis}
use async_queue_go.Service.Options.{QueueOptions}
use async_queue_go.Service.Roundtrip.{stored_as}
use async_queue_go.Service.Handover.{
  claimed_as, IsShared, passed, normalise-claimed, push_message-pop,
}

module _ (s : Server) (r : IsRedis s) (l : Libraries s) (now later ended : ℤ) (channel : String)
    (fuel fraction : ℕ) (o : QueueOptions) (m : Message) (timeout : ℤ) (cancelled : Bool)
    (c : Consumer) (stats : Stats) (number : Error → ℕ) (text : String → ℤ → String)
    (db : s.Db) where
  -- The message as the consumer gets it.
  abbrev delivered : String → Message
  delivered id = claimed_as later (stored_as (pos 0) now id (prepared (pos 0) now m))

  -- A message is pushed through the queue without a delay, while none is waiting, `Pop` hands it to a
  -- consumer, and the consumer, while no hook panics, leaves the channel as the commit for what its
  -- handler did leaves it: the id out of reserved, and in failed, waiting or delayed, or nowhere,
  -- with the new status; also after an error or a panic of the handler. The server behaves as
  -- documented and is reachable, both JSON libraries agree on the message and can write it with one
  -- attempt more, MD5 sums are not empty, and the time is positive.
  pub push_message-handle_one :
      IsConnected l.client
      → pos 1 ≤ℤ now
      → ((t : String) → str_eq (l.md5 t) "" ≡ false)
      → (observe channel (r.view db)).waiting ≡ []
      → IsShared l.json l.cjson later (λ id. stored_as (pos 0) now id (prepared (pos 0) now m))
      → ((id : String) (delay : ℤ)
          → l.json.marshal (retried_message delay ended (delivered id)) ≡ some (text id delay))
      → ((h : Hook) (m' : Message) → c.hook_panics h m' ≡ false)
      → (id raw : String) × (db1 db2 : s.Db) × (push_message
            (redis s l now channel fuel)
            o
            now
            m
            (pos 0)
            db
          ≡ (ok id, db1))
        × (pop s l later channel fraction timeout cancelled db1
            ≡ (ok (some (id, delivered id)), db2))
        × (observe channel (
              r.view
                (handle_one
                  (redis_driver s l ended channel number)
                  c
                  id
                  ended
                  (record { driver = db2; stats = stats; message = delivered id })).1.driver)
            ≡ outcome l.cjson ended
                (text id)
                (expected c.retry_delays id (c.handler (delivered id)))
                (passed id raw
                  (deadline s l later channel fraction timeout)
                  (observe channel (r.view db))))
  push_message-handle_one up positive named none_waits shared written quiet =
      let (id, raw, db1, db2, some_id, pushed, popped, read, left) =
        push_message-pop s r l now later channel up fuel fraction o m timeout cancelled db positive
          named none_waits shared in
      let stored = ap (λ p. p.entity id) left ∙ rw (eq_refl id) refl in
      let kept = normalise-claimed now later ended id m positive in
      (
        id,
        raw,
        db1,
        db2,
        pushed,
        popped,
        delivery_refines s r l ended channel number up id raw (delivered id) (text id) db2 some_id
              stored read
              (λ delay.
                ap (λ n. l.json.marshal (retried_message delay ended n)) kept ∙ written id delay)
              c _ quiet refl
            ∙ ap
                (outcome l.cjson ended (text id)
                  (expected c.retry_delays id (c.handler (delivered id))))
                left,
      )

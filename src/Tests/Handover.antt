-- ===== src/Tests/Handover.antt =====
-- The theorems on the whole way of a message at concrete inputs.
use async_queue_go.Prelude.{String, ◌≡◌, refl, arith, false, some, str_eq}
use async_queue_go.Prelude.Int.{pos}
use async_queue_go.Redis.Keyspace.{Keyspace}
use async_queue_go.Redis.Server.{keyspace}
use async_queue_go.Redis.Agreement.{IsRedis-keyspace}
use async_queue_go.Core.Message.{Message, Json, Status, set_status}
use async_queue_go.Queue.Cjson.{Cjson, stamped}
use async_queue_go.Queue.State.{observe}
use async_queue_go.Queue.RedisDriver.{Libraries, ok, pop, deadline, retried_message}
use async_queue_go.Queue.Consumer.{Consumer, error, handle_one}
use async_queue_go.Queue.Consumer.Commits.{expected}
use async_queue_go.Queue.Delivery.{redis_driver, outcome}
use async_queue_go.Service.Options.{default_queue_options}
use async_queue_go.Service.Facade.{prepared, push_message, redis}
use async_queue_go.Service.Roundtrip.{stored_as}
use async_queue_go.Service.Handover.{claimed_as, passed, push_message-pop}
use async_queue_go.Service.Handover.Handled.{push_message-handle_one}
use async_queue_go.Tests.Fixtures.{empty, letter, libraries}
use async_queue_go.Tests.Handling.{stats, acking}

-- A Lua library that keeps the text, and a Go one that writes the id and knows one claimed message.
abbrev texts : Cjson
texts = record {
  Table = String;
  decode = λ raw. some raw;
  encode = λ t. t;
  status = λ t. some Status.reserved;
  set_status = λ s t. t;
  set_updated_at = λ n t. t;
}

abbrev arrived : String → Message
arrived id = claimed_as (pos 70) (stored_as (pos 0) (pos 60) id (prepared (pos 0) (pos 60) letter))

abbrev by_id : Json
by_id = record { marshal = λ m. some m.id; unmarshal = λ raw. some (arrived raw) }

abbrev shared : Libraries keyspace
shared = record libraries { cjson = texts; json = by_id; md5 = λ t. "id" }

abbrev failing : Consumer
failing = record acking { handler = λ m. (error, m) }

push_message-pop_example :
    (id text : String) × (db1 db2 : Keyspace) × (str_eq id "" ≡ false)
    × (push_message
          (redis keyspace shared (pos 60) "q" 9)
          (default_queue_options "q")
          (pos 60)
          letter
          (pos 0)
          empty
        ≡ (ok id, db1))
    × (pop keyspace shared (pos 70) "q" 0 (pos 5) false db1 ≡ (ok (some (id, arrived id)), db2))
    × (by_id.unmarshal text ≡ some (arrived id))
    × (observe "q" db2
        ≡ passed id text (deadline keyspace shared (pos 70) "q" 0 (pos 5)) (observe "q" empty))
unfolding prepared set_status observe stamped
push_message-pop_example =
    push_message-pop keyspace IsRedis-keyspace shared (pos 60) (pos 70) "q" (λ A m d. refl) 9 0
      (default_queue_options "q") letter (pos 5) false empty (omega arith) (λ t. refl) refl
      (λ id. (id, id, refl, refl, refl))

push_message-handle_one_example :
    (id raw : String) × (db1 db2 : Keyspace) × (push_message
        (redis keyspace shared (pos 60) "q" 9)
        (default_queue_options "q")
        (pos 60)
        letter
        (pos 0)
        empty
      ≡ (ok id, db1))
    × (pop keyspace shared (pos 70) "q" 0 (pos 5) false db1 ≡ (ok (some (id, arrived id)), db2))
    × (observe "q"
          (handle_one
            (redis_driver keyspace shared (pos 80) "q" (λ e. 0))
            failing
            id
            (pos 80)
            (record { driver = db2; stats = stats; message = arrived id })).1.driver
        ≡ outcome texts
            (pos 80)
            (λ delay. id)
            (expected failing.retry_delays id (failing.handler (arrived id)))
            (passed id raw (deadline keyspace shared (pos 70) "q" 0 (pos 5)) (observe "q" empty)))
unfolding prepared set_status observe stamped retried_message
push_message-handle_one_example =
    push_message-handle_one keyspace IsRedis-keyspace shared (pos 60) (pos 70) (pos 80) "q" 9 0
      (default_queue_options "q") letter (pos 5) false failing stats (λ e. 0) (λ id delay. id) empty
      (λ A m d. refl) (omega arith) (λ t. refl) refl (λ id. (id, id, refl, refl, refl))
      (λ id delay. refl) (λ h m. refl)

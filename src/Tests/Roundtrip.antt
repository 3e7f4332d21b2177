-- ===== src/Tests/Roundtrip.antt =====
-- The theorems on pushing through the queue at concrete inputs.
use async_queue_go.Prelude.{String, ◌≡◌, refl, some, arith}
use async_queue_go.Prelude.Int.{pos, negsuc}
use async_queue_go.Redis.Keyspace.{Keyspace, zcount}
use async_queue_go.Redis.Server.{keyspace}
use async_queue_go.Redis.Agreement.{IsRedis-keyspace}
use async_queue_go.Core.Message.{Message, Status, Json, set_status}
use async_queue_go.Queue.State.{observe}
use async_queue_go.Queue.RedisDriver.{Libraries, ok}
use async_queue_go.Service.Options.{default_queue_options}
use async_queue_go.Service.Facade.{prepared, push_message, get_message, redis}
use async_queue_go.Service.Roundtrip.{stored_as, push_message-get_message, negative_delay_waits}
use async_queue_go.Tests.Fixtures.{empty, letter, libraries}

-- A JSON library that writes the id, and knows the rest of one message.
abbrev ids_of : Message → Json
ids_of m = record { marshal = λ n. some n.id; unmarshal = λ raw. some (record m { id = raw }) }

abbrev at_once : Libraries keyspace
at_once = record libraries {
  json = ids_of (stored_as (pos 0) (pos 60) "" (prepared (pos 0) (pos 60) letter));
  md5 = λ t. "id";
}

push_message-get_message_example :
    let queue = redis keyspace at_once (pos 60) "q" 9 in
    (id : String) × (db' : Keyspace) × (push_message queue
        (default_queue_options "q")
        (pos 60)
        letter
        (pos 0)
        empty
      ≡ (ok id, db'))
    × ((get_message queue id db').0
        ≡ ok (stored_as (pos 0) (pos 60) id (prepared (pos 0) (pos 60) letter)))
unfolding prepared set_status
push_message-get_message_example =
    push_message-get_message keyspace IsRedis-keyspace at_once (pos 60) "q" 9
      (default_queue_options "q") letter (pos 0) empty (λ A m d. refl) (omega arith) (λ t. refl)
      (λ id. (id, refl, refl))

abbrev overdue : Libraries keyspace
overdue = record libraries {
  json = ids_of (stored_as (negsuc 4) (pos 60) "" (prepared (negsuc 4) (pos 60) letter));
}

negative_delay_waits_example :
    ((prepared (negsuc 4) (pos 60) letter).status ≡ Status.waiting)
    × ((id : String) × (db' : Keyspace) × (push_message
            (redis keyspace overdue (pos 60) "q" 9)
            (default_queue_options "q")
            (pos 60)
            letter
            (negsuc 4)
            empty
          ≡ (ok id, db'))
        × (zcount id (observe "q" db').delayed ≡ 1))
unfolding prepared set_status
negative_delay_waits_example =
    negative_delay_waits keyspace IsRedis-keyspace overdue (pos 60) "q" 9
      (default_queue_options "q") letter 4 empty (λ A m d. refl) (λ id. (id, refl, refl))

-- ===== src/Tests/Orders.antt =====
-- The theorems on the order demo at concrete inputs.
use async_queue_go.Prelude.{
  ◌≡◌, refl, inr, Bool, false, none, some, List, [], ◌∷◌, arith, String, Option, str_eq,
  if◌then◌else◌,
}
use async_queue_go.Prelude.Int.{pos}
use async_queue_go.Redis.Keyspace.{Keyspace}
use async_queue_go.Redis.Server.{keyspace}
use async_queue_go.Core.Message.{Message, encode}
use async_queue_go.Core.Outcome.{retry}
use async_queue_go.Queue.RedisDriver.{push, generate_id}
use async_queue_go.Service.Options.{QueueOptions, default_queue_options}
use async_queue_go.Service.Facade.{Backend, redis, push_task, Refusal}
use async_queue_go.Service.Facade
use async_queue_go.Examples.Order.{
  unpaid, Order, OrderStore, get, query, finish, order_json, payment_callback, order_create,
}
use async_queue_go.Examples.Order.Deliveries.{Job, deliver_all}
use async_queue_go.Examples.Order.Settlement.{IsSettled, deliver_all-IsSettled}
use async_queue_go.Examples.Order.Overlap.{
  as_paid, late_save_undoes_payment, order_create-payment_callback,
}
use async_queue_go.Tests.Fixtures.{empty, letter, libraries}

abbrev due : Order
due = record { order_no = "ORD-1"; status = unpaid; job_id = "m1" }

abbrev orders : OrderStore
orders = λ n. if str_eq n "ORD-1" then some due else none

abbrev task_of : Message
task_of = record letter { payload = "ORD-1" }

-- The payload is the number itself.
abbrev read_job : String → Option String
read_job payload = some payload

abbrev job : Job
job = record { message = task_of; ended = none; orders = orders }

abbrev draws : List Bool
draws = false ∷ false ∷ false ∷ []

deliver_all-IsSettled_example :
    IsSettled read_job
      (pos 30 ∷ [])
      "m1"
      (pos 60)
      due
      (deliver_all read_job (pos 30 ∷ []) "m1" (pos 60) draws job)
deliver_all-IsSettled_example =
    deliver_all-IsSettled read_job (pos 30 ∷ []) "m1" (pos 60) due draws job 0 2
      (record { names = refl; stored = refl; going = refl; attempts = refl; max_attempts = refl })
      (omega arith) (omega arith) (omega arith)

abbrev backend : Backend Keyspace
backend = redis keyspace libraries (pos 60) "q" 1

abbrev queue : QueueOptions
queue = default_queue_options "q"

late_save_undoes_payment_example :
    let begun = query read_job false task_of orders in
    let (response, s1, d1) = payment_callback backend (inr queue) (some "ORD-1") orders empty in
    let (answer, s2) = finish begun s1 in
    (response ≡ order_json (as_paid due))
    × (get "ORD-1" s1 ≡ some (as_paid due))
    × (answer ≡ retry)
    × (get "ORD-1" s2 ≡ some due)
unfolding get
late_save_undoes_payment_example =
    late_save_undoes_payment backend (inr queue) read_job task_of due orders empty refl refl refl
      refl

abbrev pushed : Facade.Outcome String × Keyspace
pushed = push_task backend queue (pos 60) (some "ORD-1") (pos 30) empty

abbrev shown : Refusal → String
shown e = "refused"

abbrev new_id : Facade.Outcome String → String
new_id (Facade.done id) = id
new_id (Facade.refused e) = ""

order_create-payment_callback_example :
    let order : Order = record { order_no = "ORD-1"; status = unpaid; job_id = new_id pushed.0 } in
    let (response, s1, d1) =
      order_create backend
        (inr queue)
        (pos 60)
        "7"
        (λ n. some n)
        shown
        (some "ORD-1")
        (λ n. none)
        empty in
    let (response', s2, d2) = payment_callback backend (inr queue) (some "ORD-1") s1 d1 in
    (response ≡ order_json order)
    × (response' ≡ order_json (as_paid order))
    × (get "ORD-1" s2 ≡ some (as_paid order))
    × (d2 ≡ (Facade.cancel backend (new_id pushed.0) pushed.1).1)
unfolding push_task Facade.push_message push generate_id encode
order_create-payment_callback_example =
    order_create-payment_callback backend queue (pos 60) "7" "ORD-1" (new_id pushed.0) (λ n. some n)
      shown (λ n. none) empty pushed.1 refl

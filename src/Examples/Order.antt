-- ===== src/Examples/Order.antt =====
-- examples/demo/order/main.go: the order store, the queue handler that asks for a payment, and the
-- two HTTP handlers. Log lines are left out. What is decoded from JSON, and the random draw, are
-- arguments. Each method of the store holds its lock for itself only, so that the handlers come in a
-- part that reads and one that writes.
pub mod Deliveries
pub mod Settlement
pub mod Overlap
use Prim.Native.String.{◌++◌}
use async_queue_go.Prelude.{
  String, Bool, Option, none, some, ◌||◌, ◌⊎◌, inl, inr, ℕ, if◌then◌else◌, str_eq,
}
use async_queue_go.Prelude.Int.{ℤ, pos, leb_ℤ}
use async_queue_go.Redis.Keyspace.{update}
use async_queue_go.Core.Message.{Message}
use async_queue_go.Core.Outcome.{Result, ack, retry, drop}
use async_queue_go.Service.Options.{QueueOptions}
use async_queue_go.Service.Facade.{Backend, Outcome, done, refused, Refusal, push_task}
use async_queue_go.Service.Facade

pub data OrderStatus : Type 0 where
  unpaid paid canceled : OrderStatus

pub record Order : Type 0 where
  pub order_no : String
  pub status : OrderStatus
  pub job_id : String

abbrev pub OrderStore : Type 0
OrderStore = String → Option Order

unfoldable pub save : Order → OrderStore → OrderStore
save order s = update s order.order_no (some order)

unfoldable pub get : String → OrderStore → Option Order
get order_no s = s order_no

-- What the queue handler does after it has read the order: it answers, or it saves the order first.
pub data Plan : Type 0 where
  answers : Result → Plan
  saves : Order → Result → Plan

abbrev settle : Bool → Message → Order → Plan
settle drawn m order =
    if drawn || leb_ℤ m.max_attempts m.attempts
    then saves (record order { status = paid }) ack
    else saves order retry

abbrev by_status : Bool → Message → Option Order → Plan
by_status drawn m none = answers ack
by_status drawn m (some order) = elim order.status [
  | unpaid ↦ settle drawn m order
  | paid ↦ answers ack
  | canceled ↦ answers ack
]

abbrev for_job : Bool → Message → OrderStore → Option String → Plan
for_job drawn m s none = answers drop
for_job drawn m s (some order_no) = by_status drawn m (get order_no s)

-- `job` is the order's number in the payload, `none` if that cannot be decoded; `drawn` says that
-- the draw is 0.
unfoldable pub query : (String → Option String) → Bool → Message → OrderStore → Plan
query job drawn m s = for_job drawn m s (job m.payload)

unfoldable pub finish : Plan → OrderStore → Result × OrderStore
finish (answers r) s = (r, s)
finish (saves order r) s = (r, save order s)

-- `Handle` of `OrderQueryHandler`.
unfoldable pub handle : (String → Option String) → Bool → Message → OrderStore → Result × OrderStore
handle job drawn m s = finish (query job drawn m s) s

-- An HTTP response: the order with the code 200, or an error.
pub data Response : Type 0 where
  order_json : Order → Response
  error_json : ℕ → String → Response

-- What `paymentCallback` does after it has read the order.
pub data Payment : Type 0 where
  responds : Response → Payment
  pays : Order → Payment

abbrev payment_of : Option Order → Payment
payment_of none = responds (error_json 404 "order not found")
payment_of (some order) = elim order.status [
  | unpaid ↦ pays (record order { status = paid })
  | paid ↦ responds (order_json order)
  | canceled ↦ responds (error_json 409 "order already canceled")
]

-- The number in the request's body, `none` if that is not JSON.
unfoldable pub payment : Option String → OrderStore → Payment
payment none s = responds (error_json 400 "invalid json body")
payment (some order_no) s = payment_of (get order_no s)

module _ {D : Type 0} (b : Backend D) where
  -- Cancels the job; what `GetQueue` or `Cancel` answers is only logged.
  abbrev cancel_job : String ⊎ QueueOptions → String → D → D
  cancel_job (inl e) job_id d = d
  cancel_job (inr o) job_id d = (Facade.cancel b job_id d).1

  -- `queue` is what `GetQueue` answers: the registered queue, or the text of its error.
  unfoldable pub pay : String ⊎ QueueOptions → Payment → OrderStore → D → Response × OrderStore × D
  pay queue (responds r) s d = (r, s, d)
  pay queue (pays order) s d = (order_json order, save order s, cancel_job queue order.job_id d)

  unfoldable pub payment_callback :
      String ⊎ QueueOptions → Option String → OrderStore → D → Response × OrderStore × D
  payment_callback queue req s d = pay queue (payment req s) s d

  -- The order is stored once its job has been pushed.
  abbrev created :
      String → OrderStore → Outcome String × D → (Refusal → String) → Response × OrderStore × D
  created order_no s (done job_id, d) show =
      let order : Order = record { order_no = order_no; status = unpaid; job_id = job_id } in
      (order_json order, save order s, d)
  created order_no s (refused e, d) show =
      (error_json 500 ("push payment-query job failed: " ++ show e), s, d)

  -- `fresh` is the number made from the time, and `task` marshals the job.
  unfoldable pub order_create :
      String ⊎ QueueOptions
      → ℤ
      → String
      → (String → Option String)
      → (Refusal → String)
      → Option String
      → OrderStore
      → D
      → Response × OrderStore × D
  order_create queue now fresh task show none s d = (error_json 400 "invalid json body", s, d)
  order_create (inl e) now fresh task show (some req) s d =
      (error_json 500 ("queue not ready: " ++ e), s, d)
  order_create (inr o) now fresh task show (some req) s d =
      let order_no = if str_eq req "" then "ORD-" ++ fresh else req in
      created order_no s (push_task b o now (task order_no) (pos 30) d) show

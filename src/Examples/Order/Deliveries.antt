-- ===== src/Examples/Order/Deliveries.antt =====
-- How the job of an order of examples/demo/order/main.go is delivered to the query handler.
use async_queue_go.Prelude.{
  ℕ, suc, ◌<◌, String, ◌≡◌, refl, Bool, true, false, List, [], ◌∷◌, Option, none, some, arith,
  if◌then◌else◌,
}
use async_queue_go.Prelude.Int.{ℤ, pos}
use async_queue_go.Redis.Keyspace.{is_some}
use async_queue_go.Core.Message.{Message, Status, attempts_allowed, set_status}
use async_queue_go.Core.Outcome.{Result, ack, retry}
use async_queue_go.Queue.RedisDriver.{retried_message}
use async_queue_go.Queue.Consumer.{
  Driver, answered, Consumer, result, handle_error, dispatch, commit, recover, handle_one,
}
use async_queue_go.Queue.Consumer.Deliveries.{idle}
use async_queue_go.Examples.Order.{Order, OrderStore, handle}

-- The stored message of the job, how it has ended, and the orders.
pub record Job : Type 0 where
  pub message : Message
  pub ended : Option Status
  pub orders : OrderStore

-- The part of the Redis driver that matters here: `Retry` stores `retried_message`.
abbrev pub ending : ℤ → Driver Job
ending now = record {
  ack = λ id d. (none, record d { ended = some Status.done });
  requeue = λ id d. (none, d);
  drop = λ id d. (none, record d { ended = some Status.dropped });
  fail = λ id d. (none, record d { ended = some Status.failed });
  retry = λ id delay d. (answered true, record d { message = retried_message delay now d.message });
}

module _ (job : String → Option String) (delays : List ℤ) (id : String) (now : ℤ) where
  -- The consumer with the demo's handler on the orders as they are, for one draw.
  abbrev pub asking : Bool → OrderStore → Consumer
  asking drawn s = record {
    retry_delays = delays;
    hook_panics = λ h m. false;
    handler = λ m. (result (handle job drawn m s).0, m);
  }

  -- One delivery of the job.
  unfoldable pub deliver : Bool → Job → Job
  deliver drawn j =
      let orders = (handle job drawn j.message j.orders).1 in
      (handle_one (ending now) (asking drawn j.orders) id now (record {
        driver = record j { orders = orders };
        stats = idle;
        message = j.message;
      })).1.driver

  -- Deliveries until the job has ended, one for each draw at most.
  unfoldable pub deliver_all : List Bool → Job → Job
  deliver_all [] j = j
  deliver_all (drawn ∷ draws) j =
      let next = deliver drawn j in
      let rest = deliver_all draws next in if is_some next.ended then next else rest

-- The job is open, and is about this order, which is stored under its own number.
pub record IsAbout (job : String → Option String) (order : Order) (a m : ℕ) (j : Job) : Type 0 where
  pub names : job j.message.payload ≡ some order.order_no
  pub stored : j.orders order.order_no ≡ some order
  pub going : j.ended ≡ none
  pub attempts : j.message.attempts ≡ pos a
  pub max_attempts : j.message.max_attempts ≡ pos m

module _ (job : String → Option String) (delays : List ℤ) (id : String) (now : ℤ)
    (order : Order) where
  abbrev once : Bool → Job → Job
  once = deliver job delays id now

  abbrev handled : Bool → Job → Result × OrderStore
  handled drawn j = handle job drawn j.message j.orders

  -- The rest of a delivery, once the handler has answered so and left these orders.
  abbrev pub delivered : Bool → Job → Result × OrderStore → Job
  delivered drawn j (r, s) =
      let c = asking job delays id now drawn j.orders in
      (recover (ending now) c id now (
        commit (ending now) c id now r (record {
          driver = record j { orders = s };
          stats = idle;
          message = j.message;
        }))).1.driver

  pub deliver-delivered :
      (drawn : Bool) (j : Job) → once drawn j ≡ delivered drawn j (handled drawn j)
  unfolding deliver handle_one dispatch
  deliver-delivered drawn j = refl

  pub delivered-ack :
      (drawn : Bool) (j : Job) (s : OrderStore)
      → delivered drawn j (ack, s) ≡ record j { orders = s; ended = some Status.done }
  unfolding handle_one dispatch recover commit
  delivered-ack drawn j s = refl

  pub delivered-retry :
      (drawn : Bool) (a m : ℕ) (j : Job) (s : OrderStore)
      → IsAbout job order a m j
      → a < m
      → m < 0x8000000000000000
      → s order.order_no ≡ some order
      → IsAbout job order (suc a) m (delivered drawn j (retry, s))
  unfolding handle_one dispatch recover commit handle_error attempts_allowed set_status
      retried_message
  delivered-retry drawn a m j s b lt range kept = record {
    names = ground (arith, b.attempts, b.max_attempts, b.names);
    stored = ground (arith, b.attempts, b.max_attempts, kept);
    going = ground (arith, b.attempts, b.max_attempts, b.going);
    attempts = ground (arith, b.attempts, b.max_attempts);
    max_attempts = ground (arith, b.attempts, b.max_attempts);
  }

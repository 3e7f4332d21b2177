-- ===== src/Tests/Running.antt =====
-- The theorems on a run of the consumer and on a delivery at concrete inputs.
use async_queue_go.Prelude.{
  ℕ, ◌+◌, ◌≡◌, refl, false, none, some, Option, true, List, [], ◌∷◌, arith,
}
use async_queue_go.Prelude.Int.{ℤ, pos}
use async_queue_go.Redis.Server.{keyspace}
use async_queue_go.Redis.Agreement.{IsRedis-keyspace}
use async_queue_go.Queue.Backoff.{Backoff, second}
use async_queue_go.Queue.Keys.{message, new_keys}
use async_queue_go.Queue.Outage.{polling_rounds, outage_goes_unseen}
use async_queue_go.Queue.RedisDriver.{client}
use async_queue_go.Queue.State.{observe}
use async_queue_go.Queue.Consumer.{Run, driver_error, handle_one}
use async_queue_go.Queue.Consumer.Commits.{expected}
use async_queue_go.Queue.Consumer.Loop.{Limits, popped, nothing, round}
use async_queue_go.Queue.Consumer.Running.{
  Running, begin_run, Counters, new_counters, counters, Trouble, RunError, returned, closes,
  returns, run_err, handling_failed, Event, polls, sends, ends, run, step, incr_errors,
}
use async_queue_go.Queue.Consumer.Running.Accounts.{
  Accounted, IsRight, history, ended, run_accounts,
}
use async_queue_go.Queue.Consumer.Running.Shutdown.{GoesOn, never_stuck}
use async_queue_go.Queue.Delivery.{redis_driver, outcome, delivery_refines}
use async_queue_go.Tests.Fixtures.{letter, libraries, unreachable, one_reserved, cjson}
use async_queue_go.Tests.Handling.{stats, acking}

abbrev waits : Backoff
waits = record { initial = second; max = second; current = second }

-- One message is handled and fails, and then the context ends.
abbrev events : List Event
events =
    polls (false, nothing) 0
    ∷ polls (false, popped "m1" letter) 0
    ∷ sends
    ∷ ends 0 (some (driver_error 7))
    ∷ closes
    ∷ polls (true, nothing) 0
    ∷ returns
    ∷ []

abbrev limits : Limits
limits = record { auto_restart = false; max_messages = pos 0 }

abbrev after : Counters → Running
after c = elim (run 1 limits events (begin_run c waits)) [ none ↦ begin_run c waits | some t ↦ t ]

-- The consumer is run twice.
abbrev used : Counters
used = counters (after new_counters)

abbrev earlier : List Trouble
earlier = handling_failed (driver_error 7) ∷ []

abbrev twice : Running
twice = after used

run_accounts_example :
    let all = history 1 limits events (begin_run used waits) earlier in
    Accounted 1 twice all (ended events + 1)
    × ((r : Option RunError)
        → twice.phase ≡ returned r
        → IsRight all (ended events + 1) (counters twice))
unfolding run begin_run step round incr_errors run_err
run_accounts_example =
    run_accounts 1 limits used waits earlier 1 events twice (refl, refl, refl) refl

-- The context has ended while a handler runs.
abbrev stopping : List Event
stopping = polls (false, popped "m1" letter) 0 ∷ sends ∷ polls (true, nothing) 0 ∷ []

abbrev waiting : Running
waiting = elim (run 1 limits stopping (begin_run used waits)) [
  | none ↦ begin_run used waits
  | some t ↦ t
]

never_stuck_example : GoesOn 1 limits (none ∷ []) none waiting.phase waiting
unfolding run begin_run step round incr_errors run_err
never_stuck_example =
    never_stuck 1 limits used waits earlier 1 stopping waiting (none ∷ []) none (omega arith)
      (refl, refl, refl) refl refl

abbrev times : List (ℤ × ℕ × ℤ)
times = (pos 60, 0, pos 0) ∷ (pos 61, 0, pos 0) ∷ []

outage_goes_unseen_example :
    run 1 limits
      (polling_rounds keyspace unreachable "q" (λ e. false) (λ e. 7) times one_reserved)
      (begin_run used waits)
    ≡ some (begin_run used waits)
outage_goes_unseen_example =
    outage_goes_unseen keyspace unreachable "q" (λ e. false) (λ e. 7) 1 limits used waits times
      one_reserved (λ m db. (client 7, db, refl, refl)) refl

abbrev one_run : Run keyspace.Db
one_run = record { driver = one_reserved; stats = stats; message = letter }

delivery_refines_example :
    observe "q"
      (handle_one
        (redis_driver keyspace libraries (pos 60) "q" (λ e. 0))
        acking
        "m1"
        (pos 60)
        one_run).1.driver
    ≡ outcome cjson
        (pos 60)
        (λ delay. "text")
        (expected acking.retry_delays "m1" (acking.handler letter))
        (observe "q" one_reserved)
unfolding observe message new_keys
delivery_refines_example =
    delivery_refines keyspace IsRedis-keyspace libraries (pos 60) "q" (λ e. 0) (λ A m d. refl) "m1"
      "text" letter (λ delay. "text") one_reserved refl refl refl (λ delay. refl) acking one_run
      (λ h m. refl) refl

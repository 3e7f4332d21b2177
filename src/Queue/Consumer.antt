-- ===== src/Queue/Consumer.antt =====
-- pkg/queue/consumer.go: one message, from the handler's end to the commit of its result. Log lines
-- are left out. The driver is what the commit uses of the `Driver` interface (driver.go), over a
-- state of its own; a handler, and each hook, may panic.
pub mod Accounting
pub mod Loop
pub mod Commits
pub mod Calls
pub mod Deliveries
pub mod Running
pub mod PopErrors
use async_queue_go.Prelude.{
  ℕ, suc, ◌+◌, String, Bool, true, false, List, Option, none, some, if◌then◌else◌,
}
use async_queue_go.Prelude.Int.{ℤ, pos, leb_ℤ}
use async_queue_go.Core.Message.{Message, Status, set_status, attempts_allowed}
use async_queue_go.Core.Outcome.{Result}
use async_queue_go.Core.RetryPolicy.{retry_seconds}

pub data Fault : Type 0 where
  -- an error of the driver
  driver_error : ℕ → Fault
  -- "retry target message not found"
  retry_target_missing : String → Fault

-- Retry answers with an error, or whether the id was found.
pub data Retried : Type 0 where
  answered : Bool → Retried
  retry_error : ℕ → Retried

pub record Driver (D : Type 0) : Type 0 where
  pub ack : String → D → Option ℕ × D
  pub requeue : String → D → Option ℕ × D
  pub drop : String → D → Option ℕ × D
  pub fail : String → D → Option ℕ × D
  pub retry : String → ℤ → D → Retried × D

pub record Stats : Type 0 where
  pub processed : ℕ
  pub acked : ℕ
  pub retried : ℕ
  pub requeued : ℕ
  pub failed : ℕ
  pub dropped : ℕ
  pub errors : ℕ

-- The hooks of `ConsumerHooks`.
pub data Hook : Type 0 where
  on_ack on_retry on_requeue on_fail on_drop : Hook

-- How `handler.Handle` ended.
pub data Handled : Type 0 where
  result : Result → Handled
  error : Handled
  panic : Handled

pub record Consumer : Type 0 where
  pub retry_delays : List ℤ
  -- whether the hook panics on this message; one that is not set does not
  pub hook_panics : Hook → Message → Bool
  -- the message is a pointer, which the handler may write through
  pub handler : Message → Handled × Message

-- `defer recover()` makes a panic a value here.
pub data End : Type 0 where
  returned : Option Fault → End
  panicked : End

pub record Run (D : Type 0) : Type 0 where
  pub driver : D
  pub stats : Stats
  pub message : Message

module _ {D : Type 0} (b : Driver D) (c : Consumer) (id : String) (now : ℤ) where
  abbrev pub call_hook : Hook → Run D → End × Run D
  call_hook h s = (if c.hook_panics h s.message then panicked else returned none, s)

  -- After a commit call: the error, or the new status, a counter and the hook.
  abbrev pub committed : Status → (Stats → Stats) → Hook → Option ℕ × D → Run D → End × Run D
  committed status bump h (some e, d) s =
      (returned (some (driver_error e)), record s { driver = d })
  committed status bump h (none, d) s =
      call_hook h
        (record { driver = d; stats = bump s.stats; message = set_status status now s.message })

  abbrev pub rescheduled : ℤ → Retried × D → Run D → End × Run D
  rescheduled delay (retry_error e, d) s =
      (returned (some (driver_error e)), record s { driver = d })
  rescheduled delay (answered false, d) s =
      (returned (some (retry_target_missing id)), record s { driver = d })
  rescheduled delay (answered true, d) s = call_hook on_retry (record {
    driver = d;
    stats = record s.stats { retried = s.stats.retried + 1 };
    message =
        set_status (if leb_ℤ delay (pos 0) then Status.waiting else Status.delayed) now s.message;
  })

  -- `handleError`, and the same statements in the `RETRY` case of `handleOne`.
  unfoldable pub handle_error : Run D → End × Run D
  handle_error s =
      let (allowed, message') = attempts_allowed s.message in
      let s' = record s { message = message' } in
      let delay = retry_seconds c.retry_delays message'.attempts in
      if allowed
      then rescheduled delay (b.retry id delay s'.driver) s'
      else committed Status.failed (λ t. record t { failed = t.failed + 1 }) on_fail
          (b.fail id s'.driver) s'

  -- The `switch` of `handleOne`; a result that no constant names is an `ACK`.
  unfoldable pub commit : Result → Run D → End × Run D
  commit Result.requeue s =
      committed Status.waiting (λ t. record t { requeued = t.requeued + 1 }) on_requeue
        (b.requeue id s.driver) s
  commit Result.retry s = handle_error s
  commit Result.drop s =
      committed Status.dropped (λ t. record t { dropped = t.dropped + 1 }) on_drop
        (b.drop id s.driver) s
  commit _ s =
      committed Status.done (λ t. record t { acked = t.acked + 1 }) on_ack (b.ack id s.driver) s

  unfoldable pub dispatch : Handled × Message → Run D → End × Run D
  dispatch (result r, m) s = commit r (record s { message = m })
  dispatch (error, m) s = handle_error (record s { message = m })
  dispatch (panic, m) s = (panicked, record s { message = m })

  -- The deferred function: after a panic `handleError` is run, and its error is only logged. A panic
  -- of a hook in there is not recovered.
  abbrev pub swallowed : End × Run D → End × Run D
  swallowed (returned e, s) = (returned none, s)
  swallowed (panicked, s) = (panicked, s)

  unfoldable pub recover : End × Run D → End × Run D
  recover (returned e, s) = (returned e, s)
  recover (panicked, s) = swallowed (handle_error s)

  unfoldable pub handle_one : Run D → End × Run D
  handle_one s = recover (dispatch (c.handler s.message) s)

  abbrev pub count_error : End × Run D → End × Run D
  count_error (returned (some e), s) =
      (returned (some e), record s { stats = record s.stats { errors = s.stats.errors + 1 } })
  count_error (e, s) = (e, s)

  -- What `Run` does with one message: the counter, the goroutine's body, and `incrErrors`.
  unfoldable pub process : Run D → End × Run D
  process s =
      count_error
        (handle_one (record s { stats = record s.stats { processed = s.stats.processed + 1 } }))

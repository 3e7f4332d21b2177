-- ===== src/Queue/Consumer/Commits.antt =====
-- The commit call that a consumer (pkg/queue/consumer.go) makes for one message, over any driver.
use async_queue_go.Prelude.{
  ℕ, ◌+◌, String, ◌≡◌, ◌≢◌, refl, ◌∙◌, true, false, List, Option, none, some, Bool-cases, inl, inr,
  if◌then◌else◌,
}
use async_queue_go.Prelude.Int.{ℤ, pos, ◌+ℤ◌, ltb_ℤ, int64}
use async_queue_go.Core.Message.{Message, Status, attempts_allowed}
use async_queue_go.Core.Outcome.{Result}
use async_queue_go.Core.RetryPolicy.{retry_seconds}
use async_queue_go.Queue.Consumer.Accounting.{dispatch-Counted}
use async_queue_go.Queue.Consumer.{
  on_requeue, on_drop, on_fail, Driver, Retried, answered, retry_error, committed, rescheduled,
  swallowed, Stats, Consumer, Hook, on_ack, Handled, result, error, panic, End, returned, panicked,
  Run, handle_error, commit, dispatch, recover, handle_one,
}

pub data Commit : Type 0 where
  acks requeues drops fails : String → Commit
  retries : String → ℤ → Commit

-- What the commit call does to the state behind the driver.
abbrev pub act : {D : Type 0} → Driver D → Commit → D → D
act b (acks id) d = (b.ack id d).1
act b (requeues id) d = (b.requeue id d).1
act b (drops id) d = (b.drop id d).1
act b (fails id) d = (b.fail id d).1
act b (retries id delay) d = (b.retry id delay d).1

-- A retry while attempts remain, with the delay of the attempt that has just ended.
abbrev pub retry_or_fail : List ℤ → String → Message → Commit
retry_or_fail delays id m =
    if ltb_ℤ m.attempts m.max_attempts
    then retries id (retry_seconds delays (int64 (m.attempts +ℤ pos 1)))
    else fails id

-- The commit that docs/guide.md gives for what the handler did to message `m`.
abbrev pub expected : List ℤ → String → Handled × Message → Commit
expected delays id (result Result.requeue, m) = requeues id
expected delays id (result Result.drop, m) = drops id
expected delays id (result Result.retry, m) = retry_or_fail delays id m
expected delays id (result r, m) = acks id
expected delays id (h, m) = retry_or_fail delays id m

module _ {D : Type 0} (b : Driver D) (c : Consumer) (id : String) (now : ℤ) where
  committed-acts :
      (status : Status) (bump : Stats → Stats) (h : Hook) (r : Option ℕ × D) (s : Run D)
      → (committed b c id now status bump h r s).1.driver ≡ r.1
  committed-acts status bump h (some e, d) s = refl
  committed-acts status bump h (none, d) s = refl

  rescheduled-acts :
      (delay : ℤ) (r : Retried × D) (s : Run D) → (rescheduled b c id now delay r s).1.driver ≡ r.1
  rescheduled-acts delay (retry_error e, d) s = refl
  rescheduled-acts delay (answered false, d) s = refl
  rescheduled-acts delay (answered true, d) s = refl

  pub handle_error-acts :
      (s : Run D)
      → (handle_error b c id now s).1.driver
        ≡ act b (retry_or_fail c.retry_delays id s.message) s.driver
  unfolding handle_error attempts_allowed
  handle_error-acts s = elim (Bool-cases (ltb_ℤ s.message.attempts s.message.max_attempts)) [
    | inl e ↦ rw e (rescheduled-acts delay (b.retry id delay s.driver) s')
    | inr e ↦ rw e (
        committed-acts Status.failed (λ t. record t { failed = t.failed + 1 }) on_fail
          (b.fail id s.driver) s')
  ]
    where
      s' : Run D
      s' = record s { message = (attempts_allowed s.message).1 }

      delay : ℤ
      delay = retry_seconds c.retry_delays s'.message.attempts

  commit-acts :
      (r : Result) (s : Run D)
      → (commit b c id now r s).1.driver
        ≡ act b (expected c.retry_delays id (result r, s.message)) s.driver
  unfolding commit
  commit-acts Result.retry s = handle_error-acts s
  commit-acts Result.requeue s =
      committed-acts Status.waiting (λ t. record t { requeued = t.requeued + 1 }) on_requeue
        (b.requeue id s.driver) s
  commit-acts Result.drop s =
      committed-acts Status.dropped (λ t. record t { dropped = t.dropped + 1 }) on_drop
        (b.drop id s.driver) s
  commit-acts _ s =
      committed-acts Status.done (λ t. record t { acked = t.acked + 1 }) on_ack (b.ack id s.driver)
        s

  recover_calm : (r : End × Run D) → r.0 ≢ panicked → (recover b c id now r).1.driver ≡ r.1.driver
  unfolding recover
  recover_calm (returned e, s) calm = refl
  recover_calm (panicked, s) calm = absurd (calm refl)

  pub swallowed_driver : (r : End × Run D) → (swallowed b c id now r).1.driver ≡ r.1.driver
  swallowed_driver (returned e, s) = refl
  swallowed_driver (panicked, s) = refl

  module _ (quiet : (h : Hook) (m : Message) → c.hook_panics h m ≡ false) where
    handled-acts :
        (h : Handled × Message) (s : Run D)
        → (recover b c id now (dispatch b c id now h s)).1.driver
          ≡ act b (expected c.retry_delays id h) s.driver
    unfolding dispatch
    handled-acts (result r, m) s =
        recover_calm _ (dispatch-Counted b c id now quiet (result r, m) s (λ e. cc)).calm
        ∙ commit-acts r (record s { message = m })
    handled-acts (error, m) s =
        recover_calm _ (dispatch-Counted b c id now quiet (error, m) s (λ e. cc)).calm
        ∙ handle_error-acts (record s { message = m })
    handled-acts (panic, m) s =
        unfold recover in
        swallowed_driver (handle_error b c id now (record s { message = m }))
        ∙ handle_error-acts (record s { message = m })

    -- While no hook panics, a consumer does the expected commit to the driver's state, and no other.
    pub handle_one-acts :
        (s : Run D)
        → (handle_one b c id now s).1.driver
          ≡ act b (expected c.retry_delays id (c.handler s.message)) s.driver
    unfolding handle_one
    handle_one-acts s = handled-acts (c.handler s.message) s

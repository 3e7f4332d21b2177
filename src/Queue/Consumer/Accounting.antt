-- ===== src/Queue/Consumer/Accounting.antt =====
-- The counters of a consumer, and the commit calls that it makes.
use async_queue_go.Prelude.{
  ℕ, ◌+◌, String, ◌≡◌, ◌≢◌, refl, true, false, Option, none, some, arith, Bool-cases, inl, inr,
}
use async_queue_go.Prelude.Int.{ℤ}
use async_queue_go.Core.Message.{Message, Status, set_status, attempts_allowed}
use async_queue_go.Core.Outcome.{Result}
use async_queue_go.Core.RetryPolicy.{retry_seconds}
use async_queue_go.Queue.Consumer.{
  Driver, Retried, answered, retry_error, committed, rescheduled, count_error, on_ack, on_requeue,
  on_drop, on_fail, Stats, Consumer, Hook, Handled, result, error, panic, End, returned, panicked,
  Run, handle_error, commit, dispatch, recover, handle_one, process,
}

-- Every message that was taken up is counted once more, by its result or as an error.
abbrev pub IsBalanced : Stats → Type 0
IsBalanced t = t.processed ≡ t.acked + t.retried + t.requeued + t.failed + t.dropped + t.errors

abbrev pub total : Stats → ℕ
total t = t.acked + t.retried + t.requeued + t.failed + t.dropped

abbrev pub gain : End → ℕ
gain (returned none) = 1
gain (returned (some e)) = 0
gain panicked = 1

-- One outcome is counted if the commit succeeded, and none if it returned an error.
pub record Counted {D : Type 0} (t : Stats) (r : End × Run D) : Type 0 where
  pub calm : r.0 ≢ panicked
  pub processed : r.1.stats.processed ≡ t.processed
  pub errors : r.1.stats.errors ≡ t.errors
  pub counted : total r.1.stats ≡ gain r.0 + total t

module _ {D : Type 0} (b : Driver D) (c : Consumer) (id : String) (now : ℤ)
    (quiet : (h : Hook) (m : Message) → c.hook_panics h m ≡ false) where
  committed-Counted :
      (status : Status) (bump : Stats → Stats) (h : Hook) (r : Option ℕ × D) (s : Run D)
      → (bump s.stats).processed ≡ s.stats.processed
      → (bump s.stats).errors ≡ s.stats.errors
      → total (bump s.stats) ≡ 1 + total s.stats
      → Counted s.stats (committed b c id now status bump h r s)
  committed-Counted status bump h (some e, d) s p q g = ground arith
  committed-Counted status bump h (none, d) s p q g =
      ground (arith, quiet h (set_status status now s.message))

  rescheduled-Counted :
      (delay : ℤ) (r : Retried × D) (s : Run D) → Counted s.stats (rescheduled b c id now delay r s)
  rescheduled-Counted delay (retry_error e, d) s = ground arith
  rescheduled-Counted delay (answered false, d) s = ground arith
  rescheduled-Counted delay (answered true, d) s = rw quiet (ground arith)

  handle_error-Counted : (s : Run D) → Counted s.stats (handle_error b c id now s)
  unfolding handle_error attempts_allowed
  handle_error-Counted s = elim (Bool-cases (attempts_allowed s.message).0) [
    | inl e ↦ rw e (rescheduled-Counted delay (b.retry id delay s.driver) s')
    | inr e ↦ rw e (
        committed-Counted Status.failed (λ t. record t { failed = t.failed + 1 }) on_fail
          (b.fail id s.driver) s' refl refl (omega arith))
  ]
    where
      s' : Run D
      s' = record s { message = (attempts_allowed s.message).1 }

      delay : ℤ
      delay = retry_seconds c.retry_delays s'.message.attempts

  commit-Counted : (r : Result) (s : Run D) → Counted s.stats (commit b c id now r s)
  unfolding commit
  commit-Counted Result.retry s = handle_error-Counted s
  commit-Counted Result.requeue s =
      committed-Counted Status.waiting (λ t. record t { requeued = t.requeued + 1 }) on_requeue
        (b.requeue id s.driver) s refl refl (omega arith)
  commit-Counted Result.drop s =
      committed-Counted Status.dropped (λ t. record t { dropped = t.dropped + 1 }) on_drop
        (b.drop id s.driver) s refl refl (omega arith)
  commit-Counted _ s =
      committed-Counted Status.done (λ t. record t { acked = t.acked + 1 }) on_ack
        (b.ack id s.driver) s refl refl (omega arith)

  pub dispatch-Counted :
      (h : Handled × Message) (s : Run D) → h.0 ≢ panic → Counted s.stats (dispatch b c id now h s)
  unfolding dispatch
  dispatch-Counted (result r, m) s calm = commit-Counted r (record s { message = m })
  dispatch-Counted (error, m) s calm = handle_error-Counted (record s { message = m })
  dispatch-Counted (panic, m) s calm = absurd (calm refl)

-- Nothing is recovered from, and an error goes to its own counter.
Counted-IsBalanced :
    {D : Type 0} (b : Driver D) (c : Consumer) (id : String) (now : ℤ) (r : End × Run D) (t : Stats)
    → Counted (record t { processed = t.processed + 1 }) r
    → IsBalanced t
    → IsBalanced (count_error b c id now (recover b c id now r)).1.stats
unfolding recover
Counted-IsBalanced b c id now (returned none, s) t k h =
    omega (arith, k.counted, k.processed, k.errors)
Counted-IsBalanced b c id now (returned (some e), s) t k h =
    omega (arith, k.counted, k.processed, k.errors)
Counted-IsBalanced b c id now (panicked, s) t k h = absurd (k.calm refl)

-- While no hook panics and the handler does not panic on this message: if every message processed
-- so far is counted once more, by its outcome or as an error, then so it is after this one, whatever
-- the driver answers and whatever the handler returns.
pub process-IsBalanced :
    {D : Type 0} (b : Driver D) (c : Consumer) (id : String) (now : ℤ) (s : Run D)
    → ((h : Hook) (m : Message) → c.hook_panics h m ≡ false)
    → (c.handler s.message).0 ≢ panic
    → IsBalanced s.stats
    → IsBalanced (process b c id now s).1.stats
unfolding process handle_one
process-IsBalanced b c id now s quiet calm h =
    Counted-IsBalanced b c id now _ s.stats
      (dispatch-Counted b c id now quiet (c.handler s.message)
        (record s { stats = record s.stats { processed = s.stats.processed + 1 } }) calm)
      (omega arith)

-- ===== src/Queue/Consumer/Calls.antt =====
-- The commit calls that a consumer makes for one message, recorded by a driver that answers as it is
-- told.
use async_queue_go.Prelude.{ℕ, ◌+◌, String, ◌≡◌, refl, ◌∙◌, true, false, List, ◌∷◌, Option, none}
use async_queue_go.Prelude.Int.{ℤ}
use async_queue_go.Core.Message.{Message, Status, set_status}
use async_queue_go.Core.Outcome.{Result}
use async_queue_go.Queue.Consumer.Commits.{
  Commit, acks, requeues, drops, fails, retries, act, retry_or_fail, expected, swallowed_driver,
  handle_error-acts, handle_one-acts,
}
use async_queue_go.Queue.Consumer.{
  Driver, Retried, Consumer, Hook, on_ack, result, Run, handle_error, commit, dispatch, recover,
  handle_one,
}

-- Any answers of the driver: an error or not, and for `Retry` whether the id was found.
abbrev pub recorder : Option ℕ → Retried → Driver (List Commit)
recorder answer found = record {
  ack = λ id l. (answer, acks id ∷ l);
  requeue = λ id l. (answer, requeues id ∷ l);
  drop = λ id l. (answer, drops id ∷ l);
  fail = λ id l. (answer, fails id ∷ l);
  retry = λ id delay l. (found, retries id delay ∷ l);
}

act-recorder :
    (answer : Option ℕ) (found : Retried) (x : Commit) (l : List Commit)
    → act (recorder answer found) x l ≡ x ∷ l
act-recorder answer found (acks id) l = refl
act-recorder answer found (requeues id) l = refl
act-recorder answer found (drops id) l = refl
act-recorder answer found (fails id) l = refl
act-recorder answer found (retries id delay) l = refl

-- While no hook panics, a consumer makes exactly one commit call for a message, the one that the
-- guide gives, whatever the handler returned, also after an error or a panic of the handler, and
-- whatever the driver answers.
pub handle_one-calls :
    (answer : Option ℕ) (found : Retried) (c : Consumer) (id : String) (now : ℤ)
    → ((h : Hook) (m : Message) → c.hook_panics h m ≡ false)
    → (s : Run (List Commit))
    → (handle_one (recorder answer found) c id now s).1.driver
      ≡ expected c.retry_delays id (c.handler s.message) ∷ s.driver
handle_one-calls answer found c id now quiet s =
    handle_one-acts (recorder answer found) c id now quiet s
    ∙ act-recorder answer found (expected c.retry_delays id (c.handler s.message)) s.driver

-- If the hook for acknowledged messages panics, a message that was acknowledged in the driver is
-- then committed a second time, by a retry or a failure.
pub ack_hook_panic_commits_twice :
    (found : Retried) (c : Consumer) (id : String) (now : ℤ) (s : Run (List Commit)) (m : Message)
    → c.handler s.message ≡ (result Result.ack, m)
    → c.hook_panics on_ack (set_status Status.done now m) ≡ true
    → (handle_one (recorder none found) c id now s).1.driver
      ≡ retry_or_fail c.retry_delays id m ∷ acks id ∷ s.driver
unfolding handle_one dispatch commit recover set_status
ack_hook_panic_commits_twice found c id now s m handled panics = rw handled (
    rw panics (
      swallowed_driver (recorder none found) c id now
        (handle_error (recorder none found) c id now after)
      ∙ handle_error-acts (recorder none found) c id now after
      ∙ act-recorder none found (retry_or_fail c.retry_delays id m) (acks id ∷ s.driver)))
  where
    after : Run (List Commit)
    after = record {
      driver = acks id ∷ s.driver;
      stats = record s.stats { acked = s.stats.acked + 1 };
      message = set_status Status.done now m;
    }

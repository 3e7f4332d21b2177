-- ===== src/Queue/Outage.antt =====
-- A consumer over the Redis driver while no call of `popScript` gets through: `Pop` of
-- pkg/queue/redis_driver.go and the loop of `Run` in pkg/queue/consumer.go together.
use async_queue_go.Prelude.{
  ℕ, String, ◌≡◌, refl, sym, ap, ◌∙◌, Bool, false, Option, none, some, List, [], ◌∷◌, arith,
  if◌then◌else◌, str_eq,
}
use async_queue_go.Prelude.Int.{ℤ}
use async_queue_go.Redis.Server.{Server}
use async_queue_go.Core.Message.{Message}
use async_queue_go.Queue.Backoff.{Backoff, reset}
use async_queue_go.Queue.RedisDriver.{Libraries, Reply, ok, err, Error, pop}
use async_queue_go.Queue.RedisDriver.Replies.{IsCutOff, pop_hides_errors}
use async_queue_go.Queue.Consumer.Loop.{at_limit, Limits, Poll, popped, nothing, failed, round}
use async_queue_go.Queue.Consumer.Running.{
  polling, Counters, Event, polls, Running, begin_run, run, step, incr_errors,
}

-- A round of the loop that meets an empty queue, and a wait that is already at its first value.
module _ (limit : ℕ) (limits : Limits) (c : Counters) (b : Backoff) where
  at_limit_first : at_limit limits 0 ≡ false
  at_limit_first = ground arith

  reset_first : b.current ≡ b.initial → reset b ≡ b
  unfolding reset
  reset_first first = λ i. record b { current = sym first i }

  quiet_round :
      (code : ℕ)
      → b.current ≡ b.initial
      → step limit limits (polls (false, nothing) code) (begin_run c b) ≡ some (begin_run c b)
  unfolding step begin_run round incr_errors
  quiet_round code first = rw at_limit_first (
      ap
        (λ w. some (record (begin_run c b) { phase = polling (record { count = 0; backoff = w }) }))
        (reset_first first))

  run_step :
      (e : Event) (es : List Event) (r t : Running)
      → step limit limits e r ≡ some t
      → run limit limits (e ∷ es) r ≡ run limit limits es t
  unfolding run
  run_step e es r t h = ap (λ o. elim o [ none ↦ none | some u ↦ run limit limits es u ]) h

module _ (s : Server) (l : Libraries s) (name : String) (retryable : Error → Bool)
    (code : Error → ℕ) where
  -- What the loop makes of the answer of `Pop`, while the context goes on, and the error's number.
  abbrev poll_of : Reply (Option (String × Message)) → Poll × ℕ
  poll_of (ok none) = (nothing, 0)
  poll_of (ok (some (id, m))) = (if str_eq id "" then nothing else popped id m, 0)
  poll_of (err e) = (failed false (retryable e) false, code e)

  abbrev polled : Reply (Option (String × Message)) → Event
  polled reply = polls (false, (poll_of reply).0) (poll_of reply).1

  -- The rounds of the loop over this driver, each at its time and with a handle timeout.
  unfoldable pub polling_rounds : List (ℤ × ℕ × ℤ) → s.Db → List Event
  polling_rounds [] db = []
  polling_rounds ((now, fraction, timeout) ∷ rest) db =
      let (reply, db') = pop s l now name fraction timeout false db in
      polled reply ∷ polling_rounds rest db'

  -- An outage goes unseen: while no call of the pop script gets through, a run of a consumer over
  -- the Redis driver is after any number of rounds what it was when it began, whatever the errors are
  -- and whichever of them it would retry. It counts no error, it does not end, also not by an error
  -- that is fatal to it, and its wait between retries stays the first one. A failed call gives nil
  -- beside its error, the context goes on, and the wait is at its first value when the run begins.
  pub outage_goes_unseen :
      (limit : ℕ) (limits : Limits) (c : Counters) (b : Backoff) (times : List (ℤ × ℕ × ℤ))
      (db : s.Db)
      → IsCutOff s l
      → b.current ≡ b.initial
      → run limit limits (polling_rounds times db) (begin_run c b) ≡ some (begin_run c b)
  unfolding polling_rounds
  outage_goes_unseen limit limits c b [] db down first = unfold run in refl
  outage_goes_unseen limit limits c b ((now, fraction, timeout) ∷ rest) db down first =
      let (reply, db') = pop s l now name fraction timeout false db in
      let empty : reply ≡ ok none = pop_hides_errors s l now name fraction timeout db down in
      run_step limit limits c b (polled reply) (polling_rounds rest db') (begin_run c b)
        (begin_run c b)
        (ap (λ x. step limit limits (polled x) (begin_run c b)) empty
          ∙ quiet_round limit limits c b 0 first)
      ∙ outage_goes_unseen limit limits c b rest db' down first

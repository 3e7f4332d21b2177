-- ===== src/Queue/Forwarder.antt =====
-- pkg/queue/forwarder.go: the waits of the forwarder's loop, for a history of answers of
-- `ForwardMessages`. The loop ends only when the context does, which is the end of the history here.
use async_queue_go.Prelude.{ℕ, ◌+◌, ◌≡◌, ◌||◌, List, [], ◌∷◌, arith, ltb, if◌then◌else◌}
use async_queue_go.Prelude.Int.{ℤ, pos, ◌≤ℤ◌, leb_ℤ, ltb_ℤ}
use async_queue_go.Queue.Backoff.{Backoff, second, new_backoff, advance, reset}

-- In nanoseconds.
pub record Forwarder : Type 0 where
  pub idle_poll_interval : ℤ
  pub busy_poll_interval : ℤ
  pub error_retry_backoff : ℤ
  pub error_retry_max_backoff : ℤ

unfoldable pub normalize_intervals : Forwarder → Forwarder
normalize_intervals f =
    let backoff =
      if leb_ℤ f.error_retry_backoff (pos 0) then pos 2_000_000_000 else f.error_retry_backoff in
    record {
      idle_poll_interval =
          if leb_ℤ f.idle_poll_interval (pos 0) then second else f.idle_poll_interval;
      busy_poll_interval =
          if leb_ℤ f.busy_poll_interval (pos 0) then second else f.busy_poll_interval;
      error_retry_backoff = backoff;
      error_retry_max_backoff =
          if leb_ℤ f.error_retry_max_backoff (pos 0) || ltb_ℤ f.error_retry_max_backoff backoff
          then backoff
          else f.error_retry_max_backoff;
    }

unfoldable pub new_forwarder : Forwarder
new_forwarder = normalize_intervals (record {
  idle_poll_interval = second;
  busy_poll_interval = second;
  error_retry_backoff = pos 2_000_000_000;
  error_retry_max_backoff = pos 30_000_000_000;
})

-- What `ForwardMessages` answers: the two counts, or an error while the context is alive.
pub data Answer : Type 0 where
  forwarded : ℕ → ℕ → Answer
  failed : Answer

-- One round of the loop: the wait before the next one, and the backoff.
unfoldable pub round : Forwarder → Answer → Backoff → ℤ × Backoff
round f failed b = (b.current, advance b)
round f (forwarded delayed timeout) b =
    (if ltb 0 (delayed + timeout) then f.busy_poll_interval else f.idle_poll_interval, reset b)

unfoldable pub rounds : Forwarder → Backoff → List Answer → List ℤ
rounds f b [] = []
rounds f b (a ∷ rest) = let (wait, b') = round f a b in wait ∷ rounds f b' rest

-- `Run`, which normalises the intervals once more.
unfoldable pub run : Forwarder → List Answer → List ℤ
run f answers =
    let f' = normalize_intervals f in
    rounds f' (new_backoff f'.error_retry_backoff f'.error_retry_max_backoff) answers

abbrev pub AllWithin : ℤ → ℤ → List ℤ → Type 0
AllWithin lo hi [] = Unit {0}
AllWithin lo hi (w ∷ ws) = (lo ≤ℤ w) × (w ≤ℤ hi) × AllWithin lo hi ws

-- The backoff of a forwarder with the constructor's settings.
record IsPaced (b : Backoff) : Type 0 where
  first : b.initial ≡ pos 2_000_000_000
  last : b.max ≡ pos 30_000_000_000
  above : pos 2_000_000_000 ≤ℤ b.current
  below : b.current ≤ℤ pos 30_000_000_000

advance-IsPaced : (b : Backoff) → IsPaced b → IsPaced (advance b)
unfolding advance
advance-IsPaced b h = ground arith

reset-IsPaced : (b : Backoff) → IsPaced b → IsPaced (reset b)
unfolding reset
reset-IsPaced b h = ground arith

rounds-AllWithin :
    (b : Backoff) (answers : List Answer)
    → IsPaced b
    → AllWithin second (pos 30_000_000_000) (rounds new_forwarder b answers)
unfolding rounds round new_forwarder normalize_intervals
rounds-AllWithin b [] h = tt
rounds-AllWithin b (failed ∷ rest) h =
    (omega (arith, h.above), h.below, rounds-AllWithin (advance b) rest (advance-IsPaced b h))
rounds-AllWithin b (forwarded d t ∷ rest) h =
    (ground arith, ground arith, rounds-AllWithin (reset b) rest (reset-IsPaced b h))

-- A forwarder made by the constructor waits at least one second and at most thirty between two
-- rounds, through any history of successes and errors.
pub run-AllWithin :
    (answers : List Answer) → AllWithin second (pos 30_000_000_000) (run new_forwarder answers)
unfolding run new_forwarder normalize_intervals new_backoff
run-AllWithin answers = rounds-AllWithin _ answers (ground arith)

-- ===== src/Worker/Lifecycle.antt =====
-- What the callers of a worker can rely on, and where they cannot.
use async_queue_go.Prelude.{
  ℕ, suc, ◌≤◌, ◌≡◌, refl, true, false, none, some, arith, ◌==◌, if◌then◌else◌, ◌⊎◌, inl,
}
use async_queue_go.Prelude.Int.{ℤ}
use async_queue_go.Worker.{
  World, start, Exit, error_of, finish, begin_wait, begin_stop, end_wait, end_stop, stop_timeout,
  reset, new_worker,
}

-- Channels that were not made yet are open, and a worker is started exactly when it has a channel.
pub record IsSound (s : World) : Type 0 where
  pub fresh : (ch : ℕ) → s.next ≤ ch → s.closed ch ≡ false
  pub linked :
      ((s.worker.started ≡ false) × (s.worker.done ≡ none))
      ⊎ ((ch : ℕ) × (s.worker.started ≡ true) × (s.worker.done ≡ some ch) × (suc ch ≤ s.next))

-- The world of the run on channel `ch`, which was not made before, after its runner ended.
abbrev ended : World → ℕ → Exit → World
ended s ch e = record s {
  worker = record { started = true; cancel = true; done = some ch; err = error_of e };
  next = suc ch;
  closed = λ j. if ch == j then true else s.closed j;
}

abbrev rested : World → ℕ → Exit → World
rested s ch e = record (ended s ch e) { worker = reset s.worker }

rested-IsSound : (s : World) (ch : ℕ) (e : Exit) → IsSound s → s.next ≤ ch → IsSound (rested s ch e)
unfolding reset
rested-IsSound s ch e h le = record {
  fresh = λ j past. ground (arith, h.fresh j);
  linked = inl (refl, refl);
}

-- A sound worker that is not running can be started; once its runner has ended, a caller of `Wait`,
-- and one of `Stop` with any grace period that is not over, gets what the runner returned or
-- panicked with, and the worker is ready for the next start.
pub start-finish-wait :
    (s : World) (e : Exit) (grace : ℤ)
    → IsSound s
    → s.worker.started ≡ false
    → let (refused, s1) = start s in
      (refused ≡ none)
      × (begin_wait s1 ≡ some s.next)
      × (begin_stop s1 ≡ some s.next)
      × ((s2 : World) × (s3 : World) × (finish e s1 ≡ some s2)
          × (end_wait s.next s2 ≡ some (error_of e, s3))
          × (end_stop grace false s.next s2 ≡ some (error_of e, s3))
          × (s3.worker ≡ new_worker)
          × IsSound s3)
unfolding start finish begin_wait begin_stop end_wait end_stop reset new_worker
start-finish-wait s e grace h idle = (
  ground arith,
  ground arith,
  ground arith,
  (
    ended s s.next e,
    rested s s.next e,
    ground (arith, h.fresh s.next),
    ground arith,
    ground arith,
    refl,
    rested-IsSound s s.next e h (omega arith),
  ),
)

-- A runner that ends after `Stop` gave up on it closes a channel that is no longer there: the
-- program panics, however the runner ended.
pub late_finish_panics :
    (s : World) (e : Exit) → s.worker.started ≡ false → finish e (stop_timeout (start s).1).1 ≡ none
unfolding start finish stop_timeout
late_finish_panics s e idle = ground arith

-- A runner that ends after `Stop` gave up on it panics, however it ended, as it closes a channel that
-- is no longer there. If the worker was started again before the old runner ends, that end closes the channel of the
-- new run: a caller of `Wait` gets the old runner's error and finds the worker reset, and the end of
-- the new runner panics.
pub late_finish_ends_next_run :
    (s : World) (e e' : Exit)
    → IsSound s
    → s.worker.started ≡ false
    → let s1 = (start (stop_timeout (start s).1).1).1 in
      (finish e (stop_timeout (start s).1).1 ≡ none)
      × (begin_wait s1 ≡ some (suc s.next))
      × ((s2 : World) × (s3 : World) × (finish e s1 ≡ some s2)
          × (finish e' s2 ≡ none)
          × (end_wait (suc s.next) s2 ≡ some (error_of e, s3))
          × (s3.worker.started ≡ false)
          × (finish e' s3 ≡ none))
unfolding start finish stop_timeout begin_wait end_wait reset
late_finish_ends_next_run s e e' h idle = (
  late_finish_panics s e idle,
  ground arith,
  (
    ended s (suc s.next) e,
    rested s (suc s.next) e,
    ground (arith, h.fresh (suc s.next)),
    ground arith,
    ground arith,
    refl,
    refl,
  ),
)

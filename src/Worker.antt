-- ===== src/Worker.antt =====
-- pkg/worker/worker.go. The calls of a worker, and the steps of the goroutine that runs its runner,
-- one at a time; each step is what happens under one hold of the mutex. A channel is a number, and a
-- closed channel stays closed. `cancel` tells the runner to stop, which it may do late or never.
pub mod Lifecycle
use async_queue_go.Prelude.{
  ℕ, suc, Bool, true, false, ◌&&◌, Option, none, some, ◌==◌, if◌then◌else◌,
}
use async_queue_go.Prelude.Int.{ℤ, pos, leb_ℤ}

pub data Error : Type 0 where
  already_started not_started shutdown_timeout : Error
  -- what the runner returned, and what it panicked with
  returned panicked : ℕ → Error

pub record Worker : Type 0 where
  pub started : Bool
  pub cancel : Bool
  pub done : Option ℕ
  pub err : Option Error

-- The worker, the channels made so far, and those that were closed.
pub record World : Type 0 where
  pub worker : Worker
  pub next : ℕ
  pub closed : ℕ → Bool

unfoldable pub new_worker : Worker
new_worker = record { started = false; cancel = false; done = none; err = none }

-- `resetLocked`
unfoldable pub reset : Worker → Worker
reset w = record { started = false; cancel = false; done = none; err = none }

-- `Start`, up to the goroutine.
unfoldable pub start : World → Option Error × World
start s = if s.worker.started then (some already_started, s) else (
  none,
  record s {
    worker = record { started = true; cancel = true; done = some s.next; err = none };
    next = suc s.next;
  },
)

-- How `runner.Run` ended.
pub data Exit : Type 0 where
  normal : Exit
  failure panic : ℕ → Exit

abbrev pub error_of : Exit → Option Error
error_of normal = none
error_of (failure e) = some (returned e)
error_of (panic e) = some (panicked e)

abbrev close : Option ℕ → World → Option World
close none s = none
close (some ch) s =
    if s.closed ch
    then none
    else some (record s { closed = λ j. if ch == j then true else s.closed j })

-- The end of the goroutine: the error is stored and `w.done`, as it is by then, is closed. `none` is
-- the panic of a close of a nil or closed channel.
unfoldable pub finish : Exit → World → Option World
finish e s = close s.worker.done (record s { worker = record s.worker { err = error_of e } })

-- The first part of `Wait` and `Stop`: the channel to wait for.
unfoldable pub begin_wait : World → Option ℕ
begin_wait s = if s.worker.started then s.worker.done else none

-- Both need `started` and a channel, and `Stop` the cancel function; `none` is "not started".
unfoldable pub begin_stop : World → Option ℕ
begin_stop s = if s.worker.started && s.worker.cancel then s.worker.done else none

-- The second part, once the channel is closed: the stored error, and a worker that can be started.
unfoldable pub end_wait : ℕ → World → Option (Option Error × World)
unfolding reset
end_wait ch s =
    if s.closed ch then some (s.worker.err, record s { worker = reset s.worker }) else none

-- The other end of `Stop`, when its timer fires first.
unfoldable pub stop_timeout : World → Option Error × World
unfolding reset
stop_timeout s = (some shutdown_timeout, record s { worker = reset s.worker })

-- The second part of `Stop` with its grace period: `late` says that the timer fires before the channel
-- is closed. Without a positive period there is no timer.
unfoldable pub end_stop : ℤ → Bool → ℕ → World → Option (Option Error × World)
end_stop grace late ch s =
    if leb_ℤ grace (pos 0)
    then end_wait ch s
    else if late
    then some (stop_timeout s)
    else end_wait ch s

-- ===== src/Queue/Consumer/Running.antt =====
-- `Consumer.Run` of pkg/queue/consumer.go with the goroutines of its handlers, one event at a time:
-- the loop, the semaphore, the wait for the handlers and the error that is returned. A handler gives
-- its slot back before it leaves the wait group. `incrErrors` is one event; its two fields are read
-- after the wait. A panic of a hook ends the program and is no event here.
pub mod Accounts
pub mod Shutdown
use Prim.Native.String.{◌++◌}
use async_queue_go.Prelude.{
  ℕ, zero, suc, ◌+◌, ◌-◌, leb, String, Option, none, some, List, [], ◌∷◌, if◌then◌else◌, ltb,
  length,
}
use async_queue_go.Core.Message.{Message}
use async_queue_go.Queue.Backoff.{Backoff}
use async_queue_go.Queue.Consumer.{Fault}
use async_queue_go.Queue.Consumer.Loop.{
  Round, Limits, Progress, Next, Stop, fatal, stop, again, take, round,
}

-- What `incrErrors` is given: an error of `handleOne`, or a fatal one of `Pop`.
pub data Trouble : Type 0 where
  handling_failed : Fault → Trouble
  pop_failed : ℕ → Trouble

-- `ConsumerRunError`
pub record RunError : Type 0 where
  pub first : Option Trouble
  pub count : ℕ

-- `Error`, with the texts of the errors.
unfoldable pub error_text : (Trouble → String) → (ℕ → String) → RunError → String
error_text text decimal e = elim e.first [
  | none ↦ ""
  | some first ↦
      if leb e.count 1
      then text first
      else text first ++ (" (and " ++ (decimal (e.count - 1) ++ " more errors)"))
]

pub data Phase : Type 0 where
  polling : Progress → Phase
  -- a message is taken, and waits for the semaphore
  sending : Progress → String → Message → Phase
  draining : Phase
  returned : Option RunError → Phase

pub record Running : Type 0 where
  pub processed : ℕ
  pub errors : ℕ
  pub concurrent_err : Option Trouble
  -- the handlers that hold a slot, and the number of those that only have to leave the wait group
  pub handling : List (String × Message)
  pub closing : ℕ
  pub phase : Phase

-- The counters of a `Consumer` that a run reports from. They belong to the consumer, and no run
-- resets them.
pub record Counters : Type 0 where
  pub processed : ℕ
  pub errors : ℕ
  pub concurrent_err : Option Trouble

abbrev pub new_counters : Counters
new_counters = record { processed = 0; errors = 0; concurrent_err = none }

-- A run of a consumer with these counters.
unfoldable pub begin_run : Counters → Backoff → Running
begin_run c b = record {
  processed = c.processed;
  errors = c.errors;
  concurrent_err = c.concurrent_err;
  handling = [];
  closing = 0;
  phase = polling (record { count = 0; backoff = b });
}

abbrev pub or_first : Option Trouble → Trouble → Option Trouble
or_first none e = some e
or_first (some old) e = some old

unfoldable pub incr_errors : Option Trouble → Running → Running
incr_errors none s = s
incr_errors (some e) s = record s {
  errors = s.errors + 1;
  concurrent_err = or_first s.concurrent_err e;
}

abbrev pub report : ℕ → Option Trouble → Option RunError
report zero first = none
report (suc n) first = some (record { first = first; count = suc n })

-- The consumer's counters, as a run has left them.
abbrev pub counters : Running → Counters
counters s = record {
  processed = s.processed;
  errors = s.errors;
  concurrent_err = s.concurrent_err;
}

unfoldable pub run_err : Running → Option RunError
run_err s = report s.errors s.concurrent_err

pub data Event : Type 0 where
  -- a round of the loop; the number is the error of `Pop`, if it gave one
  polls : Round → ℕ → Event
  sends : Event
  -- the handler at this place in the list ends, with its error
  ends : ℕ → Option Fault → Event
  closes : Event
  returns : Event

abbrev pub pop_trouble : ℕ → Next → Option Trouble
pop_trouble e (stop fatal) = some (pop_failed e)
pop_trouble e n = none

abbrev pub after_round : Next → Running → Running
after_round (stop why) s = record s { phase = draining }
after_round (again p) s = record s { phase = polling p }
after_round (take p id m) s = record s { processed = s.processed + 1; phase = sending p id m }

abbrev pub remove_at {ℓ} : {A : Type ℓ} → ℕ → List A → Option (List A)
remove_at i [] = none
remove_at zero (x ∷ xs) = some xs
remove_at (suc i) (x ∷ xs) = elim (remove_at i xs) [ none ↦ none | some ys ↦ some (x ∷ ys) ]

abbrev pub trouble_of : Option Fault → Option Trouble
trouble_of none = none
trouble_of (some f) = some (handling_failed f)

module _ (limit : ℕ) (l : Limits) where
  abbrev polled_in : Round → ℕ → Phase → Running → Option Running
  polled_in r e (polling p) s =
      let n = round l p r in some (after_round n (incr_errors (pop_trouble e n) s))
  polled_in r e ph s = none

  abbrev sent_in : Phase → Running → Option Running
  sent_in (sending p id m) s =
      if ltb (length s.handling) limit
      then some (record s { handling = (id, m) ∷ s.handling; phase = polling p })
      else none
  sent_in ph s = none

  abbrev ended_with : Option Fault → Option (List (String × Message)) → Running → Option Running
  ended_with f none s = none
  ended_with f (some rest) s =
      some (incr_errors (trouble_of f) (record s { handling = rest; closing = s.closing + 1 }))

  abbrev closed_from : ℕ → Running → Option Running
  closed_from zero s = none
  closed_from (suc n) s = some (record s { closing = n })

  -- After `wg.Wait`.
  abbrev returned_from : Phase → List (String × Message) → ℕ → Running → Option Running
  returned_from draining [] zero s = some (record s { phase = returned (run_err s) })
  returned_from ph handling closing s = none

  -- `none`: the event cannot happen in this state.
  unfoldable pub step : Event → Running → Option Running
  step (polls r e) s = polled_in r e s.phase s
  step sends s = sent_in s.phase s
  step (ends i f) s = ended_with f (remove_at i s.handling) s
  step closes s = closed_from s.closing s
  step returns s = returned_from s.phase s.handling s.closing s

  unfoldable pub run : List Event → Running → Option Running
  run [] s = some s
  run (e ∷ es) s = elim (step e s) [ none ↦ none | some t ↦ run es t ]

-- ===== src/Queue/Consumer/Running/Shutdown.antt =====
-- `Consumer.Run` (pkg/queue/consumer.go) does not get stuck: while it takes messages, and after that.
use async_queue_go.Prelude.{
  ℕ, zero, suc, ◌≤◌, String, ◌≡◌, refl, Option, none, some, List, [], ◌∷◌, arith, Bool, true,
  length, Bool-cases, inl, inr, ◌⊎◌, ltb, lt→ltb,
}
use async_queue_go.Core.Message.{Message}
use async_queue_go.Queue.Backoff.{Backoff}
use async_queue_go.Queue.Consumer.{Fault}
use async_queue_go.Queue.Consumer.Loop.{Limits, Progress, Round}
use async_queue_go.Queue.Consumer.Running.Accounts.{IsRight, run_accounts}
use async_queue_go.Queue.Consumer.Running.{
  Counters, begin_run, Trouble, RunError, Phase, polling, sending, draining, returned, Running,
  incr_errors, Event, polls, sends, ends, closes, returns, step, run,
}

-- Each handler ends, then all leave the wait group.
abbrev closings : ℕ → List Event
closings zero = returns ∷ []
closings (suc n) = closes ∷ closings n

abbrev pub shutdown : List (Option Fault) → ℕ → List Event
shutdown [] closing = closings closing
shutdown (f ∷ faults) closing = ends 0 f ∷ shutdown faults (suc closing)

nil_of_length {ℓ} : {A : Type ℓ} (xs : List A) → length xs ≡ 0 → xs ≡ []
nil_of_length [] h = refl
nil_of_length (x ∷ xs) h = absurd (omega (arith, h))

module _ (limit : ℕ) (l : Limits) where
  abbrev pub Returns : Option Running → Type 0
  Returns o = (t : Running) × (r : Option RunError) × (o ≡ some t) × (t.phase ≡ returned r)

  closings-Returns :
      (n : ℕ) (s : Running)
      → s.phase ≡ draining
      → s.handling ≡ []
      → s.closing ≡ n
      → Returns (run limit l (closings n) s)
  unfolding run step
  closings-Returns zero s p h c = rw (p, h, c) (_, _, refl, refl)
  closings-Returns (suc n) s p h c = rw c (closings-Returns n (record s { closing = n }) p h refl)

  -- The first handler ends.
  first_ends :
      (f : Option Fault) (faults : List (Option Fault)) (s : Running)
      (jobs : List (String × Message)) (n : ℕ)
      → s.handling ≡ jobs
      → s.phase ≡ draining
      → length jobs ≡ suc (length faults)
      → s.closing ≡ n
      → ((t : Running)
          → t.phase ≡ draining
          → length t.handling ≡ length faults
          → t.closing ≡ suc n
          → Returns (run limit l (shutdown faults (suc n)) t))
      → Returns (run limit l (shutdown (f ∷ faults) n) s)
  unfolding run step incr_errors
  first_ends f faults s [] n j p h c rest = absurd (omega (arith, h))
  first_ends none faults s (x ∷ xs) n j p h c rest =
      rw j (rest _ p (omega (arith, h)) (omega (arith, c)))
  first_ends (some x) faults s (y ∷ xs) n j p h c rest =
      rw j (rest _ p (omega (arith, h)) (omega (arith, c)))

  shutdown-Returns :
      (faults : List (Option Fault)) (s : Running) (n : ℕ)
      → s.phase ≡ draining
      → length s.handling ≡ length faults
      → s.closing ≡ n
      → Returns (run limit l (shutdown faults n) s)
  unfolding run step
  shutdown-Returns [] s n p h c = closings-Returns n s p (nil_of_length s.handling h) c
  shutdown-Returns (f ∷ faults) s n p h c =
      first_ends f faults s s.handling n refl p h c (λ t. shutdown-Returns faults t (suc n))

  -- The message that was taken has got its slot, and the loop goes on.
  abbrev pub Enters : Progress → List Event → Running → Type 0
  Enters p es s = (t : Running) × (run limit l es s ≡ some t) × (t.phase ≡ polling p)

  handler_ends_first :
      (f : Option Fault) (p : Progress) (id : String) (m : Message) (s : Running)
      (jobs : List (String × Message))
      → s.handling ≡ jobs
      → s.phase ≡ sending p id m
      → 1 ≤ length jobs
      → length jobs ≤ limit
      → Enters p (ends 0 f ∷ sends ∷ []) s
  unfolding run step incr_errors
  handler_ends_first f p id m s [] j ph busy room = absurd (omega arith)
  handler_ends_first none p id m s (x ∷ xs) j ph busy room =
      rw (j, ph, lt→ltb (length xs) limit (omega arith)) (_, refl, refl)
  handler_ends_first (some e) p id m s (x ∷ xs) j ph busy room =
      rw (j, ph, lt→ltb (length xs) limit (omega arith)) (_, refl, refl)

  slot_is_free :
      (p : Progress) (id : String) (m : Message) (s : Running) (b : Bool)
      → s.phase ≡ sending p id m
      → ltb (length s.handling) limit ≡ b
      → b ≡ true
      → Enters p (sends ∷ []) s
  unfolding run step
  slot_is_free p id m s b ph free on = rw (ph, run, step, free, on) (_, refl, refl)

  taken_gets_slot :
      (f : Option Fault) (p : Progress) (id : String) (m : Message) (s : Running)
      → 1 ≤ limit
      → length s.handling ≤ limit
      → s.phase ≡ sending p id m
      → Enters p (sends ∷ []) s ⊎ Enters p (ends 0 f ∷ sends ∷ []) s
  taken_gets_slot f p id m s some_room room ph = elim (Bool-cases (ltb (length s.handling) limit)) [
    | inl free ↦ inl (slot_is_free p id m s true ph free refl)
    | inr full ↦ inr (handler_ends_first f p id m s s.handling refl ph (ground arith) room)
  ]

  -- What comes next, by the phase: `faults` are the errors with which the handlers that run end.
  abbrev pub GoesOn : List (Option Fault) → Option Fault → Phase → Running → Type 0
  GoesOn faults f (polling p) s =
      (r : Round) → (e : ℕ) → (t : Running) × (step limit l (polls r e) s ≡ some t)
  GoesOn faults f (sending p id m) s = Enters p (sends ∷ []) s ⊎ Enters p (ends 0 f ∷ sends ∷ []) s
  GoesOn faults f draining s = Returns (run limit l (shutdown faults s.closing) s)
  GoesOn faults f (returned r) s = Unit {0}

  phase-GoesOn :
      (faults : List (Option Fault)) (f : Option Fault) (ph : Phase) (s : Running)
      → s.phase ≡ ph
      → 1 ≤ limit
      → length s.handling ≤ limit
      → length s.handling ≡ length faults
      → GoesOn faults f ph s
  unfolding step
  phase-GoesOn faults f (polling p) s ph some_room room e = λ r x. rw ph (_, refl)
  phase-GoesOn faults f (sending p id m) s ph some_room room e =
      taken_gets_slot f p id m s some_room room ph
  phase-GoesOn faults f draining s ph some_room room e =
      shutdown-Returns faults s s.closing ph e refl
  phase-GoesOn faults f (returned r) s ph some_room room e = tt

  -- With at least one slot, a run never gets stuck, whatever has happened in it, or in earlier runs
  -- of the consumer: the loop meets any answer of `Pop`; a message that was taken gets a slot at once, or
  -- else as soon as a handler has ended; and once the loop has stopped, and the handlers that run have
  -- ended, one after the other and with whatever errors, and have left the wait group, the run
  -- returns. The counters are right when the run begins.
  pub never_stuck :
      (c : Counters) (b : Backoff) (h : List Trouble) (n : ℕ) (es : List Event) (t : Running)
      (faults : List (Option Fault)) (f : Option Fault)
      → 1 ≤ limit
      → IsRight h n c
      → run limit l es (begin_run c b) ≡ some t
      → length t.handling ≡ length faults
      → GoesOn faults f t.phase t
  never_stuck c b h n es t faults f some_room right reached e =
      let (errs, first, taken, room, closed) =
        (run_accounts limit l c b h n es t right reached).0 in
      phase-GoesOn faults f t.phase t refl some_room room e

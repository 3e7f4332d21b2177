-- ===== src/Queue/Consumer/Loop.antt =====
-- The loop of `Consumer.Run`, over a history of what each round meets. Handlers run beside it; the
-- semaphore only delays it.
use async_queue_go.Prelude.{
  ℕ, suc, ◌+◌, ◌≤◌, String, ◌≡◌, refl, Bool, true, false, ◌&&◌, Option, none, some, List, [], ◌∷◌,
  arith, if◌then◌else◌, length, Bool-cases, inl, inr,
}
use async_queue_go.Prelude.Int.{ℤ, pos, leb_ℤ, ltb_ℤ}
use async_queue_go.Core.Message.{Message}
use async_queue_go.Queue.Backoff.{Backoff, advance, reset}

-- What `Pop` gives; for an error, whether the context has ended, whether it is retryable, and whether
-- the context ends during the wait.
pub data Poll : Type 0 where
  popped : String → Message → Poll
  nothing : Poll
  failed : Bool → Bool → Bool → Poll

-- Whether the context had ended before the round, and the answer of `Pop`.
abbrev pub Round : Type 0
Round = Bool × Poll

pub data Stop : Type 0 where
  limit_reached cancelled fatal : Stop

pub record Limits : Type 0 where
  pub auto_restart : Bool
  pub max_messages : ℤ

pub record Progress : Type 0 where
  pub count : ℕ
  pub backoff : Backoff

-- The first test of the loop.
abbrev pub at_limit : Limits → ℕ → Bool
at_limit l count =
    l.auto_restart && ltb_ℤ (pos 0) l.max_messages && leb_ℤ l.max_messages (pos count)

pub data Next : Type 0 where
  stop : Stop → Next
  again : Progress → Next
  take : Progress → String → Message → Next

abbrev after_error : Progress → Bool → Bool → Bool → Next
after_error p true retryable stopped = stop cancelled
after_error p false false stopped = stop fatal
after_error p false true true = stop cancelled
after_error p false true false = again (record p { backoff = advance p.backoff })

abbrev polled : Progress → Poll → Next
polled p (failed ended retryable stopped) = after_error p ended retryable stopped
polled p nothing = again (record p { backoff = reset p.backoff })
polled p (popped id m) = take (record { count = p.count + 1; backoff = reset p.backoff }) id m

unfoldable pub round : Limits → Progress → Round → Next
round l p (ended, poll) =
    if at_limit l p.count
    then stop limit_reached
    else if ended
    then stop cancelled
    else polled p poll

-- The messages that are handed to handlers, and how the loop ended, if it did.
unfoldable pub loop : Limits → Progress → List Round → List (String × Message) × Option Stop
loop l p [] = ([], none)
loop l p (r ∷ rest) = elim (round l p r) [
  | stop s ↦ ([], some s)
  | again p' ↦ loop l p' rest
  | take p' id m ↦ (let (taken, s) = loop l p' rest in ((id, m) ∷ taken, s))
]

-- How a round moves the count.
abbrev Moves : Limits → Progress → Next → Type 0
Moves l p (stop limit_reached) = at_limit l p.count ≡ true
Moves l p (stop s) = Unit {0}
Moves l p (again p') = p'.count ≡ p.count
Moves l p (take p' id m) = (at_limit l p.count ≡ false) × (p'.count ≡ p.count + 1)

polled-Moves :
    (l : Limits) (p : Progress) (poll : Poll)
    → at_limit l p.count ≡ false
    → Moves l p (polled p poll)
polled-Moves l p (popped id m) below = (below, refl)
polled-Moves l p nothing below = refl
polled-Moves l p (failed true retryable stopped) below = tt
polled-Moves l p (failed false false stopped) below = tt
polled-Moves l p (failed false true true) below = tt
polled-Moves l p (failed false true false) below = refl

round-Moves : (l : Limits) (p : Progress) (r : Round) → Moves l p (round l p r)
unfolding round
round-Moves l p (ended, poll) = elim (Bool-cases (at_limit l p.count)) [
  | inl full ↦ rw full full
  | inr below ↦ elim (Bool-cases ended) [
    | inl e ↦ rw (below, e) tt
    | inr e ↦ rw (below, e) (polled-Moves l p poll below)
  ]
]

-- The test of the loop, for a limit that is set.
at_limit_reached :
    (l : Limits) (n count : ℕ)
    → l.auto_restart ≡ true
    → l.max_messages ≡ pos (suc n)
    → count ≤ suc n
    → at_limit l count ≡ true
    → count + 0 ≡ suc n
at_limit_reached l n count on cap h full = ground arith

at_limit_room :
    (l : Limits) (n count : ℕ)
    → l.auto_restart ≡ true
    → l.max_messages ≡ pos (suc n)
    → at_limit l count ≡ false
    → count + 1 ≤ suc n
at_limit_room l n count on cap below = ground arith

abbrev Limited : ℕ → ℕ → List (String × Message) × Option Stop → Type 0
Limited n count (taken, s) =
    (count + length taken ≤ suc n) × (s ≡ some limit_reached → count + length taken ≡ suc n)

-- With a restart limit of `n` messages, a run that has taken `count` of them takes at most the
-- others, whatever happens; and if it ends at the limit it has taken exactly those.
pub loop_limit :
    (l : Limits) (n : ℕ) (p : Progress) (rounds : List Round)
    → l.auto_restart ≡ true
    → l.max_messages ≡ pos (suc n)
    → p.count ≤ suc n
    → (p.count + length (loop l p rounds).0 ≤ suc n)
      × ((loop l p rounds).1 ≡ some limit_reached → p.count + length (loop l p rounds).0 ≡ suc n)
unfolding loop
loop_limit l n p [] on cap h = (omega arith, λ e. cc)
loop_limit l n p (r ∷ rest) on cap h =
    go (round l p r) (round-Moves l p r) (λ p' h'. loop_limit l n p' rest on cap h')
  where
    go :
        (x : Next)
        → Moves l p x
        → ((p' : Progress) → p'.count ≤ suc n → Limited n p'.count (loop l p' rest))
        → Limited n p.count (elim x [
          | stop s ↦ ([], some s)
          | again p' ↦ loop l p' rest
          | take p' id m ↦ (let (taken, s) = loop l p' rest in ((id, m) ∷ taken, s))
        ])
    go (stop limit_reached) full rec =
        (omega arith, λ _. at_limit_reached l n p.count on cap h full)
    go (stop cancelled) moves rec = (omega arith, λ e. cc)
    go (stop fatal) moves rec = (omega arith, λ e. cc)
    go (again p') same rec =
        let (few, exact) = rec p' (omega arith) in (omega arith, λ e. omega (arith, exact e))
    go (take p' id m) (below, next) rec =
        let (few, exact) = rec p' (rw next (at_limit_room l n p.count on cap below)) in
        (omega arith, λ e. omega (arith, exact e))

-- ===== src/Queue/Consumer/Running/Accounts.antt =====
-- What holds of `Consumer.Run` (pkg/queue/consumer.go) after any events, in any order.
use async_queue_go.Prelude.{
  ℕ, zero, suc, ◌+◌, ◌≤◌, String, ◌≡◌, refl, sym, ap, ◌∙◌, Option, none, some, List, [], ◌∷◌, ◌++◌,
  arith, length, length-append, ltb,
}
use mathlib.Core.Path.{subst}
use native.Mathlib.Nat.{zero-add}
use async_queue_go.Core.Message.{Message}
use async_queue_go.Queue.Backoff.{Backoff}
use async_queue_go.Queue.Consumer.{Fault}
use async_queue_go.Queue.Consumer.Loop.{
  Round, Limits, Progress, Next, fatal, cancelled, limit_reached, stop, again, take, round,
}
use async_queue_go.Prelude.Tests.{by_test, IfSome}
use async_queue_go.Queue.Consumer.Running.{
  Trouble, pop_failed, handling_failed, Phase, polling, sending, draining, returned, Running,
  Counters, counters, RunError, begin_run, or_first, incr_errors, report, run_err, Event, polls,
  sends, ends, closes, returns, pop_trouble, after_round, remove_at, trouble_of, step, run,
  polled_in, sent_in, ended_with, closed_from, returned_from,
}

abbrev list_of {ℓ} : {A : Type ℓ} → Option A → List A
list_of none = []
list_of (some a) = a ∷ []

abbrev pub oldest {ℓ} : {A : Type ℓ} → List A → Option A
oldest [] = none
oldest (x ∷ xs) = some x

abbrev in_hand : Phase → ℕ
in_hand (sending p id m) = 1
in_hand ph = 0

abbrev ended_by : Event → ℕ → ℕ
ended_by (ends i f) k = suc k
ended_by e k = k

-- The number of handlers that have ended.
abbrev pub ended : List Event → ℕ
ended [] = 0
ended (e ∷ es) = ended_by e (ended es)

module _ (limit : ℕ) (l : Limits) where
  abbrev trouble_in : Round → ℕ → Phase → Option Trouble
  trouble_in r e (polling p) = pop_trouble e (round l p r)
  trouble_in r e ph = none

  -- The error that an event brings.
  abbrev trouble : Event → Running → Option Trouble
  trouble (polls r e) s = trouble_in r e s.phase
  trouble (ends i f) s = trouble_of f
  trouble e s = none

  -- All errors of a run, oldest first, after those of `h`.
  abbrev pub history : List Event → Running → List Trouble → List Trouble
  history [] s h = h
  history (e ∷ es) s h = elim (step limit l e s) [
    | none ↦ h
    | some t ↦ history es t (h ++ list_of (trouble e s))
  ]

-- A run has returned only when no handler is left, with the errors that there were.
abbrev Closed : Phase → List (String × Message) → ℕ → List Trouble → Type 0
Closed (returned r) handling closing h =
    (handling ≡ []) × (closing ≡ 0) × (r ≡ report (length h) (oldest h))
Closed ph handling closing h = Unit {0}

abbrev pub Accounted : ℕ → Running → List Trouble → ℕ → Type 0
Accounted limit s h n =
    (s.errors ≡ length h)
    × (s.concurrent_err ≡ oldest h)
    × (s.processed ≡ in_hand s.phase + length s.handling + n)
    × (length s.handling ≤ limit)
    × Closed s.phase s.handling s.closing h

-- What a consumer's counters hold between two runs: `h` are all its errors, and `n` messages were
-- handled.
abbrev pub IsRight : List Trouble → ℕ → Counters → Type 0
IsRight h n c = (c.errors ≡ length h) × (c.concurrent_err ≡ oldest h) × (c.processed ≡ n)

oldest-snoc : (h : List Trouble) (e : Trouble) → oldest (h ++ (e ∷ [])) ≡ or_first (oldest h) e
oldest-snoc [] e = refl
oldest-snoc (x ∷ h) e = refl

append-nil : (h : List Trouble) → h ++ [] ≡ h
append-nil [] = refl
append-nil (x ∷ h) = ap (λ t. x ∷ t) (append-nil h)

errors-incr_errors :
    (o : Option Trouble) (s : Running) (h : List Trouble)
    → s.errors ≡ length h
    → s.concurrent_err ≡ oldest h
    → ((incr_errors o s).errors ≡ length (h ++ list_of o))
      × ((incr_errors o s).concurrent_err ≡ oldest (h ++ list_of o))
unfolding incr_errors
errors-incr_errors none s h e f = (rw append-nil e, rw append-nil f)
errors-incr_errors (some x) s h e f =
    (omega (arith, e, length-append h (x ∷ [])), ap (λ o. or_first o x) f ∙ sym (oldest-snoc h x))

abbrev Shorter {ℓ} : {A : Type ℓ} → List A → Option (List A) → Type 0
Shorter xs = IfSome (λ ys. length xs ≡ suc (length ys))

remove_at-Shorter {ℓ} : {A : Type ℓ} (i : ℕ) (xs : List A) → Shorter xs (remove_at i xs)
remove_at-Shorter i [] = tt
remove_at-Shorter zero (x ∷ xs) = refl
remove_at-Shorter {A = A} (suc i) (x ∷ xs) = go (remove_at i xs) (remove_at-Shorter i xs)
  where
    go :
        (o : Option (List A))
        → Shorter xs o
        → Shorter (x ∷ xs) (elim o [ none ↦ none | some ys ↦ some (x ∷ ys) ])
    go none h = tt
    go (some ys) h = ap suc h

module _ (limit : ℕ) (l : Limits) where
  after_round-Accounted :
      (e : ℕ) (n : Next) (p : Progress) (s : Running) (h : List Trouble) (k : ℕ)
      → s.phase ≡ polling p
      → Accounted limit s h k
      → Accounted limit
          (after_round n (incr_errors (pop_trouble e n) s))
          (h ++ list_of (pop_trouble e n))
          k
  unfolding incr_errors
  after_round-Accounted e (stop fatal) p s h k at (es, fs, ps, room, c) =
      let (es', fs') = errors-incr_errors (some (pop_failed e)) s h es fs in
      (es', fs', omega (arith, ps, ap in_hand at), room, tt)
  after_round-Accounted e (stop cancelled) p s h k at (es, fs, ps, room, c) =
      (rw append-nil es, rw append-nil fs, omega (arith, ps, ap in_hand at), room, tt)
  after_round-Accounted e (stop limit_reached) p s h k at (es, fs, ps, room, c) =
      (rw append-nil es, rw append-nil fs, omega (arith, ps, ap in_hand at), room, tt)
  after_round-Accounted e (again p') p s h k at (es, fs, ps, room, c) =
      (rw append-nil es, rw append-nil fs, omega (arith, ps, ap in_hand at), room, tt)
  after_round-Accounted e (take p' id m) p s h k at (es, fs, ps, room, c) =
      (rw append-nil es, rw append-nil fs, omega (arith, ps, ap in_hand at), room, tt)

  polled_in-Accounted :
      (r : Round) (e : ℕ) (ph : Phase) (s : Running) (h : List Trouble) (k : ℕ)
      → s.phase ≡ ph
      → Accounted limit s h k
      → IfSome
          (λ t. Accounted limit t (h ++ list_of (trouble_in limit l r e ph)) k)
          (polled_in limit l r e ph s)
  polled_in-Accounted r e (polling p) s h k at a =
      after_round-Accounted e (round l p r) p s h k at a
  polled_in-Accounted r e (sending p id m) s h k at a = tt
  polled_in-Accounted r e draining s h k at a = tt
  polled_in-Accounted r e (returned x) s h k at a = tt

  sent_in-Accounted :
      (ph : Phase) (s : Running) (h : List Trouble) (k : ℕ)
      → s.phase ≡ ph
      → Accounted limit s h k
      → IfSome (λ t. Accounted limit t (h ++ []) k) (sent_in limit l ph s)
  sent_in-Accounted (polling p) s h k at a = tt
  sent_in-Accounted (sending p id m) s h k at (es, fs, ps, room, c) =
      by_test (IfSome (λ t. Accounted limit t (h ++ []) k)) (ltb (length s.handling) limit) _ _
        (λ free.
          (rw append-nil es, rw append-nil fs, omega (arith, ps, ap in_hand at), ground arith, tt))
        (λ full. tt)
  sent_in-Accounted draining s h k at a = tt
  sent_in-Accounted (returned x) s h k at a = tt

  -- A run that has returned has no handler left to end.
  Closed-busy :
      (ph : Phase) (handling rest : List (String × Message)) (closing : ℕ) (h h' : List Trouble)
      → length handling ≡ suc (length rest)
      → Closed ph handling closing h
      → Closed ph rest (closing + 1) h'
  Closed-busy (polling p) handling rest closing h h' e c = tt
  Closed-busy (sending p id m) handling rest closing h h' e c = tt
  Closed-busy draining handling rest closing h h' e c = tt
  Closed-busy (returned x) handling rest closing h h' e c = absurd (omega (arith, e, ap length c.0))

  ended_with-Accounted :
      (f : Option Fault) (o : Option (List (String × Message))) (s : Running) (h : List Trouble)
      (k : ℕ)
      → Shorter s.handling o
      → Accounted limit s h k
      → IfSome
          (λ t. Accounted limit t (h ++ list_of (trouble_of f)) (suc k))
          (ended_with limit l f o s)
  unfolding incr_errors
  ended_with-Accounted f none s h k short a = tt
  ended_with-Accounted none (some rest) s h k short (es, fs, ps, room, c) = (
    rw append-nil es,
    rw append-nil fs,
    omega (arith, ps, short),
    omega (arith, room, short),
    Closed-busy s.phase s.handling rest s.closing h _ short c,
  )
  ended_with-Accounted (some x) (some rest) s h k short (es, fs, ps, room, c) =
      let (es', fs') = errors-incr_errors (some (handling_failed x)) s h es fs in
      (
        es',
        fs',
        omega (arith, ps, short),
        omega (arith, room, short),
        Closed-busy s.phase s.handling rest s.closing h _ short c,
      )

  Closed-closing :
      (ph : Phase) (handling : List (String × Message)) (closing n : ℕ) (h : List Trouble)
      → closing ≡ suc n
      → Closed ph handling closing h
      → Closed ph handling n (h ++ [])
  Closed-closing (polling p) handling closing n h e c = tt
  Closed-closing (sending p id m) handling closing n h e c = tt
  Closed-closing draining handling closing n h e c = tt
  Closed-closing (returned x) handling closing n h e c = absurd (omega (arith, e, c.1))

  closed_from-Accounted :
      (n : ℕ) (s : Running) (h : List Trouble) (k : ℕ)
      → s.closing ≡ n
      → Accounted limit s h k
      → IfSome (λ t. Accounted limit t (h ++ []) k) (closed_from limit l n s)
  closed_from-Accounted zero s h k at a = tt
  closed_from-Accounted (suc n) s h k at (es, fs, ps, room, c) = (
    rw append-nil es,
    rw append-nil fs,
    ps,
    room,
    Closed-closing s.phase s.handling s.closing n h at c,
  )

  returned_from-Accounted :
      (ph : Phase) (handling : List (String × Message)) (closing : ℕ) (s : Running)
      (h : List Trouble) (k : ℕ)
      → s.phase ≡ ph
      → s.handling ≡ handling
      → s.closing ≡ closing
      → Accounted limit s h k
      → IfSome (λ t. Accounted limit t (h ++ []) k) (returned_from limit l ph handling closing s)
  unfolding run_err
  returned_from-Accounted draining [] zero s h k at none_left all_closed (es, fs, ps, room, c) = (
    rw append-nil es,
    rw append-nil fs,
    omega (arith, ps, ap in_hand at),
    room,
    (none_left, all_closed, rw (append-nil, es, fs) refl),
  )
  returned_from-Accounted draining [] (suc n) s h k at e f a = tt
  returned_from-Accounted draining (x ∷ xs) n s h k at e f a = tt
  returned_from-Accounted (polling p) xs n s h k at e f a = tt
  returned_from-Accounted (sending p id m) xs n s h k at e f a = tt
  returned_from-Accounted (returned x) xs n s h k at e f a = tt

  step-Accounted :
      (e : Event) (s : Running) (h : List Trouble) (k : ℕ)
      → Accounted limit s h k
      → IfSome
          (λ t. Accounted limit t (h ++ list_of (trouble limit l e s)) (ended_by e k))
          (step limit l e s)
  unfolding step
  step-Accounted (polls r e) s h k a = polled_in-Accounted r e s.phase s h k refl a
  step-Accounted sends s h k a = sent_in-Accounted s.phase s h k refl a
  step-Accounted (ends i f) s h k a =
      ended_with-Accounted f (remove_at i s.handling) s h k (remove_at-Shorter i s.handling) a
  step-Accounted closes s h k a = closed_from-Accounted s.closing s h k refl a
  step-Accounted returns s h k a =
      returned_from-Accounted s.phase s.handling s.closing s h k refl refl refl a

  ended_by-add : (e : Event) (n k : ℕ) → n + ended_by e k ≡ ended_by e n + k
  ended_by-add (ends i f) n k = omega arith
  ended_by-add (polls r e) n k = refl
  ended_by-add sends n k = refl
  ended_by-add closes n k = refl
  ended_by-add returns n k = refl

  then-Accounted :
      (e : Event) (es : List Event) (h h' : List Trouble) (k : ℕ) (o : Option Running)
      → IfSome (λ u. Accounted limit u h' (ended_by e k)) o
      → ((u : Running)
          → Accounted limit u h' (ended_by e k)
          → IfSome
              (λ t. Accounted limit t (history limit l es u h') (ended es + ended_by e k))
              (run limit l es u))
      → IfSome
          (λ t.
            Accounted limit t
              (elim o [ none ↦ h | some u ↦ history limit l es u h' ])
              (ended (e ∷ es) + k))
          (elim o [ none ↦ none | some u ↦ run limit l es u ])
  then-Accounted e es h h' k none a rest = tt
  then-Accounted e es h h' k (some u) a rest =
      subst (λ n. IfSome (λ t. Accounted limit t (history limit l es u h') n) (run limit l es u))
        (ended_by-add e (ended es) k) (rest u a)

  run-Accounted :
      (es : List Event) (s : Running) (h : List Trouble) (k : ℕ)
      → Accounted limit s h k
      → IfSome (λ t. Accounted limit t (history limit l es s h) (ended es + k)) (run limit l es s)
  unfolding run
  run-Accounted [] s h k a = subst (λ n. Accounted limit s h n) (sym (zero-add k)) a
  run-Accounted (e ∷ es) s h k a =
      then-Accounted e es h (h ++ list_of (trouble limit l e s)) k (step limit l e s)
        (step-Accounted e s h k a) (λ u a'. run-Accounted es u _ _ a')

  run-begun :
      (c : Counters) (b : Backoff) (h : List Trouble) (n : ℕ) (es : List Event) (t : Running)
      → IsRight h n c
      → run limit l es (begin_run c b) ≡ some t
      → Accounted limit t (history limit l es (begin_run c b) h) (ended es + n)
  unfolding begin_run
  run-begun c b h n es t (errs, first, taken) reached =
      subst (IfSome (λ x. Accounted limit x (history limit l es (begin_run c b) h) (ended es + n)))
        reached
        (run-Accounted es (begin_run c b) h n (errs, first, omega (arith, taken), omega arith, tt))

  -- What a run that has returned leaves.
  returned-IsRight :
      (t : Running) (r : Option RunError) (h : List Trouble) (n : ℕ)
      → t.phase ≡ returned r
      → Accounted limit t h n
      → IsRight h n (counters t)
  returned-IsRight t r h n at (errs, first, taken, room, closed) =
      let (none_left, all_closed, reported) =
        subst (λ ph. Closed ph t.handling t.closing h) at closed in
      (errs, first, omega (arith, taken, ap in_hand at, ap length none_left))

  -- After any events of a run, in any order: at most `limit` handlers hold a slot; every message that
  -- the consumer has ever taken waits for a slot, or has a handler, or was handled to the end; the
  -- errors are counted, and the first one is kept. Once the run has returned, no handler is left, and
  -- it returns no error only if the consumer never had one, and else their number and the first.
  -- The consumer's counters are right when the run begins, with `h` the errors of its earlier runs and
  -- `n` the messages that these have handled: they are counted in and reported again; and
  -- the counters that a returned run leaves are right for the next one.
  pub run_accounts :
      (c : Counters) (b : Backoff) (h : List Trouble) (n : ℕ) (es : List Event) (t : Running)
      → IsRight h n c
      → run limit l es (begin_run c b) ≡ some t
      → let all = history limit l es (begin_run c b) h in
        Accounted limit t all (ended es + n)
        × ((r : Option RunError) → t.phase ≡ returned r → IsRight all (ended es + n) (counters t))
  run_accounts c b h n es t right reached =
      let accounted = run-begun c b h n es t right reached in
      (accounted, λ r at. returned-IsRight t r _ _ at accounted)

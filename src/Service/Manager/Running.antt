-- ===== src/Service/Manager/Running.antt =====
-- `Stop` and `Run` of asyncqueue/manager.go as whole calls, with what the goroutines do while they
-- wait. A start has succeeded before.
use async_queue_go.Prelude.{
  String, ◌≡◌, refl, sym, ap, ◌∙◌, Bool, true, false, Option, none, some, List, [], ◌∷◌,
  if◌then◌else◌,
}
use mathlib.Core.Path.{subst}
use async_queue_go.Prelude.Int.{ℤ}
use async_queue_go.Service.Manager.{Manager, Failure, Process, begin_stop, end_stop, run_errors}
use async_queue_go.Service.Manager.Lifecycle.{Event, advance, Kept, advance-Kept}

-- Which case of the `select` of `Run` is taken, and how a stop ends.
pub data Ending : Type 0 where
  goroutines_ended shut_down timed_out : Ending

pub data Result : Type 0 where
  not_started stop_timeout : Result
  -- the errors that are joined; none is the nil error
  joined : List (String × Failure) → Result

module _ {H D : Type 0} (decimal : ℤ → String) where
  -- Any steps of the goroutines; `none` is a panic.
  unfoldable pub advance_all : List (Event × Process) → Manager H D → Option (Manager H D)
  advance_all [] m = some m
  advance_all ((ev, p) ∷ es) m = elim (advance decimal ev p m) [
    | none ↦ none
    | some m' ↦ advance_all es m'
  ]

  -- The result, the manager as it is when the wait ends, and what is left of it then.
  abbrev pub after_wait :
      {R : Type 0}
      → (Manager H D → R × Manager H D)
      → Option (Manager H D)
      → Option (R × Manager H D × Manager H D)
  after_wait f none = none
  after_wait f (some m) = some ((f m).0, m, (f m).1)

  abbrev stopped : Manager H D → Result × Manager H D
  stopped m = (joined (end_stop m).0, (end_stop m).1)

  -- With the steps during the wait. If it ends in time, they have left nothing running.
  abbrev stop_from :
      Bool
      → List (Event × Process)
      → Manager H D
      → Option (Manager H D)
      → Option (Result × Manager H D × Manager H D)
  stop_from in_time es m none = some (not_started, m, m)
  stop_from true es m (some m') = after_wait stopped (advance_all es m')
  stop_from false es m (some m') = after_wait (λ x. (stop_timeout, x)) (advance_all es m')

  unfoldable pub stop :
      Bool → List (Event × Process) → Manager H D → Option (Result × Manager H D × Manager H D)
  stop in_time es m = stop_from in_time es m (begin_stop m)

  -- `Run` after its start, with the steps up to its end.
  unfoldable pub run :
      Ending → List (Event × Process) → Manager H D → Option (Result × Manager H D × Manager H D)
  run goroutines_ended es m = after_wait (λ x. (joined (run_errors x), x)) (advance_all es m)
  run shut_down es m = stop true es m
  run timed_out es m = stop false es m

  Kept-trans :
      (m m' : Manager H D) (o : Option (Manager H D)) → Kept m (some m') → Kept m' o → Kept m o
  Kept-trans m m' none h k = k
  Kept-trans m m' (some x) h k = (k.0 ∙ h.0, k.1 ∙ h.1, k.2 ∙ h.2, k.3 ∙ h.3, k.4)

  then_all :
      (es : List (Event × Process)) (m : Manager H D) (o : Option (Manager H D))
      → Kept m o
      → ((m' : Manager H D) (l : List (String × Failure))
          → m'.errors ≡ some l
          → Kept m' (advance_all es m'))
      → Kept m (elim o [ none ↦ none | some m' ↦ advance_all es m' ])
  then_all es m none k rest = k
  then_all es m (some m') k rest = Kept-trans m m' (advance_all es m') k (rest m' k.4.0 k.4.1)

  -- No steps of the goroutines touch more than the errors and the list of those that run.
  pub advance_all-Kept :
      (es : List (Event × Process)) (m : Manager H D) (l : List (String × Failure))
      → m.errors ≡ some l
      → Kept m (advance_all es m)
  unfolding advance_all
  advance_all-Kept [] m l h = (refl, refl, refl, refl, (l, h))
  advance_all-Kept ((ev, p) ∷ es) m l h =
      then_all es m (advance decimal ev p m) (advance-Kept decimal ev p m l h)
        (λ m' l' h'. advance_all-Kept es m' l' h')

  -- When the wait ends, it is still the started manager with the queues of `m`.
  abbrev AsIs : Manager H D → Manager H D → Type 0
  AsIs m x = (x.started ≡ true) × (x.queues ≡ m.queues)

  -- By the end of the run: its result, the manager when the wait ends, and what it leaves, for a
  -- manager with the queues of `m`.
  abbrev pub Ended : Ending → Manager H D → Option (Result × Manager H D × Manager H D) → Type 0
  Ended ending m none = ⊥
  Ended goroutines_ended m (some (result, x, m')) =
      AsIs m x × (result ≡ joined (run_errors x)) × (m' ≡ x)
  Ended shut_down m (some (result, x, m')) =
      AsIs m x
      × (x.canceled ≡ true)
      × (result ≡ joined (run_errors x))
      × (m'.errors ≡ x.errors)
      × (m'.started ≡ false)
      × (m'.queues ≡ [])
  Ended timed_out m (some (result, x, m')) =
      AsIs m x × (x.canceled ≡ true) × (result ≡ stop_timeout) × (m' ≡ x)

  waited-Ended :
      (m : Manager H D) (o : Option (Manager H D))
      → m.started ≡ true
      → Kept m o
      → Ended goroutines_ended m (after_wait (λ x. (joined (run_errors x), x)) o)
  waited-Ended m none on k = k
  waited-Ended m (some m') on k = ((k.0 ∙ on, k.2), refl, refl)

  stopped-Ended :
      (m : Manager H D) (o : Option (Manager H D))
      → m.started ≡ true
      → Kept (record m { canceled = true }) o
      → Ended shut_down m (after_wait stopped o)
  unfolding end_stop run_errors
  stopped-Ended m none on k = k
  stopped-Ended m (some m') on k = ((k.0 ∙ on, k.2), k.1, refl, refl, refl, refl)

  late-Ended :
      (m : Manager H D) (o : Option (Manager H D))
      → m.started ≡ true
      → Kept (record m { canceled = true }) o
      → Ended timed_out m (after_wait (λ x. (stop_timeout, x)) o)
  late-Ended m none on k = k
  late-Ended m (some m') on k = ((k.0 ∙ on, k.2), k.1, refl, refl)

  begin_stop_started :
      (m : Manager H D) → m.started ≡ true → begin_stop m ≡ some (record m { canceled = true })
  unfolding begin_stop
  begin_stop_started m on = ap (λ b. if b then some (record m { canceled = true }) else none) on

  -- A run of a started manager does not panic, whatever its goroutines do. Up to the end of the wait
  -- it stays started, with its queues. It gives back the errors, joined, that the manager has then,
  -- unless the stop times out. Only a stop in time closes the queues and leaves a manager that can be
  -- started again: after a timeout, and when the goroutines end by themselves, it is left as it is at
  -- the end of the wait, started and with its queues.
  pub run-Ended :
      (ending : Ending) (es : List (Event × Process)) (m : Manager H D)
      (l : List (String × Failure))
      → m.started ≡ true
      → m.errors ≡ some l
      → Ended ending m (run ending es m)
  unfolding run stop
  run-Ended goroutines_ended es m l on h =
      waited-Ended m (advance_all es m) on (advance_all-Kept es m l h)
  run-Ended shut_down es m l on h =
      let m1 = record m { canceled = true } in
      subst (λ o. Ended shut_down m (stop_from true es m o)) (sym (begin_stop_started m on))
        (stopped-Ended m (advance_all es m1) on (advance_all-Kept es m1 l h))
  run-Ended timed_out es m l on h =
      let m1 = record m { canceled = true } in
      subst (λ o. Ended timed_out m (stop_from false es m o)) (sym (begin_stop_started m on))
        (late-Ended m (advance_all es m1) on (advance_all-Kept es m1 l h))

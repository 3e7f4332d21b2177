-- ===== src/Service/Manager/Safety.antt =====
-- What holds of a manager after any steps of its owner and its goroutines.
use async_queue_go.Prelude.{
  String, str_eq, ◌≡◌, ◌≢◌, refl, sym, Bool, true, false, Option, none, some, List, [], ◌∷◌, arith,
  Option-cases, inl, inr,
}
use mathlib.Core.Path.{subst, ◌∙◌}
use async_queue_go.Prelude.Int.{ℤ}
use async_queue_go.Service.Facade.{Backend}
use async_queue_go.Service.Startup.{QueueConfig}
use async_queue_go.Service.Manager.{
  Process, Failure, Manager, new_manager, register_driver, rolled_back, begin_stop, end_stop,
}
use async_queue_go.Service.Manager.Start.{
  Started, ready, already_started, panicked, refused_start, create_failed,
}
use async_queue_go.Prelude.Tests.{by_test}
use async_queue_go.Service.Manager.Launch.{AllOpen, Leaves, start_worker-Leaves}
use async_queue_go.Service.Manager.Lifecycle.{
  Phase, idle, rolling_back, stopping, System, Event, is_running, advance, Settled, Writable, Kept,
  advance-Kept, after_start, IsSound, Step, registers, world_moves, starts, rolls_back, stops,
  stopped, stop_times_out, advances, Reaches, here, next,
}

nothing_runs : (p : Process) (l : List Process) → l ≡ [] → is_running p l ≡ true → ⊥
nothing_runs p [] e h = ground arith
nothing_runs p (q ∷ l) e h = ground arith

module _ {H D : Type 0} where
  Settled-drivers :
      (o : Phase) (b : Bool) (m : Manager H D) (l : List (String × D))
      → Settled o b m
      → Settled o b (record m { drivers = l })
  Settled-drivers idle true m l h = h
  Settled-drivers idle false m l h = h
  Settled-drivers rolling_back true m l h = h
  Settled-drivers rolling_back false m l h = h
  Settled-drivers stopping true m l h = h
  Settled-drivers stopping false m l h = h

  Settled-stopping : (b : Bool) (m : Manager H D) → Settled stopping b m → Settled idle b m
  Settled-stopping true m h = h.0
  Settled-stopping false m h = absurd h

  Settled-Kept :
      (o : Phase) (b : Bool) (m m' : Manager H D) (p : Process)
      → is_running p m.running ≡ true
      → Kept m (some m')
      → Settled o b m
      → Settled o b m'
  Settled-Kept idle true m m' p r (st, ctx, qs, conf, errs) h = rw (qs, conf) h
  Settled-Kept idle false m m' p r k h = absurd (nothing_runs p m.running h.0 r)
  Settled-Kept rolling_back true m m' p r k h = absurd h
  Settled-Kept rolling_back false m m' p r k h = k.1 ∙ h
  Settled-Kept stopping true m m' p r (st, ctx, qs, conf, errs) h = (rw (qs, conf) h.0, ctx ∙ h.1)
  Settled-Kept stopping false m m' p r k h = absurd h

  -- A goroutine runs only while the map of errors is there.
  errors_of_running :
      (m : Manager H D) (p : Process)
      → Writable m.errors m.running
      → is_running p m.running ≡ true
      → (l : List (String × Failure)) × (m.errors ≡ some l)
  errors_of_running m p h r = elim (Option-cases m.errors) [
    | inl e ↦ absurd (nothing_runs p m.running (subst (λ x. Writable x m.running) e h) r)
    | inr some_errors ↦ some_errors
  ]

module _ {H D W : Type 0} where
  register_driver-IsSound :
      (name : String) (d : D) (s : System H D W)
      → IsSound s
      → IsSound (record s { manager = register_driver name d s.manager })
  unfolding register_driver
  register_driver-IsSound name d s h =
      by_test {A = Manager H D} (λ m. Settled s.owner m.started m × Writable m.errors m.running)
        (str_eq name "") _ _ (λ e. h)
        (λ e. (Settled-drivers s.owner s.manager.started s.manager _ h.0, h.1))

  abbrev SoundIf : Option (System H D W) → Type 0
  SoundIf none = Unit {0}
  SoundIf (some t) = IsSound t

  after_start-IsSound :
      (m : Manager H D) (r : Started) (m' : Manager H D) (w : W)
      → Settled idle m.started m
      → Writable m.errors m.running
      → Leaves m r m'
      → SoundIf (after_start (r, m', w))
  after_start-IsSound m ready m' w hs hw h =
      let (off, on, opens, launched, errs, ctx, conf) = h in
      (
        subst (λ b. Settled idle b m') (sym on) (subst (λ c. AllOpen c m'.queues) (sym conf) opens),
        subst (λ e. Writable e m'.running) (sym errs) tt,
      )
  after_start-IsSound m already_started m' w hs hw h =
      subst (λ x. Settled idle x.started x × Writable x.errors x.running) (sym h.1) (hs, hw)
  after_start-IsSound m panicked m' w hs hw h = tt
  after_start-IsSound m (refused_start x) m' w hs hw h =
      subst (λ x. Settled idle x.started x × Writable x.errors x.running) (sym h.1) (hs, hw)
  after_start-IsSound m (create_failed name x) m' w hs hw h = (
    subst (λ b. Settled rolling_back b m') (sym h.0) h.2,
    subst (λ e. Writable e m'.running) (sym h.1) tt,
  )

  end_stop-IsSound :
      (m : Manager H D) (w : W)
      → m.running ≡ []
      → Writable m.errors m.running
      → IsSound (record { manager = (end_stop m).1; world = w; owner = idle })
  unfolding end_stop
  end_stop-IsSound m w h hw = ((h, refl), hw)

  rolled_back-IsSound :
      (m : Manager H D) (w : W)
      → m.running ≡ []
      → IsSound (record { manager = rolled_back m; world = w; owner = idle })
  unfolding rolled_back
  rolled_back-IsSound m w h = ((h, refl), h)

  abbrev StoppingIf : W → Option (Manager H D) → Type 0
  StoppingIf w none = Unit {0}
  StoppingIf w (some m) = IsSound (record { manager = m; world = w; owner = stopping })

  begin_stop-IsSound :
      (m : Manager H D) (w : W)
      → Settled idle m.started m
      → Writable m.errors m.running
      → StoppingIf w (begin_stop m)
  unfolding begin_stop
  begin_stop-IsSound m w hs hw =
      by_test (StoppingIf w) m.started _ _
        (λ on. (
          subst (λ b. Settled stopping b (record m { canceled = true })) (sym on)
              (subst (λ b. Settled idle b m) on hs, refl),
          hw,
        ))
        (λ off. tt)

  module _ (backend_of : D → String → Backend W) (decimal : ℤ → String) where
    Step-IsSound : (s t : System H D W) → IsSound s → Step backend_of decimal s t → IsSound t
    Step-IsSound s t h (registers name d e) =
        subst IsSound (sym e) (register_driver-IsSound name d s h)
    Step-IsSound s t h (world_moves w e) = subst IsSound (sym e) h
    Step-IsSound s t h (starts o e) = subst SoundIf e (
        after_start-IsSound s.manager _ _ _
          (subst (λ x. Settled x s.manager.started s.manager) o h.0) h.1
          (start_worker-Leaves backend_of s.manager s.world))
    Step-IsSound s t h (rolls_back o r e) =
        subst IsSound (sym e) (rolled_back-IsSound s.manager s.world r)
    Step-IsSound s t h (stops m o b e) = subst IsSound (sym e) (
        subst (StoppingIf s.world) b (
          begin_stop-IsSound s.manager s.world
            (subst (λ x. Settled x s.manager.started s.manager) o h.0) h.1))
    Step-IsSound s t h (stopped o r e) =
        subst IsSound (sym e) (end_stop-IsSound s.manager s.world r h.1)
    Step-IsSound s t h (stop_times_out o e) = subst IsSound (sym e) (
      Settled-stopping s.manager.started s.manager
          (subst (λ x. Settled x s.manager.started s.manager) o h.0),
      h.1,
    )
    Step-IsSound s t h (advances ev p m f r a e) =
        let (l, he) = errors_of_running s.manager p h.1 r in
        let k = subst (Kept s.manager) a (advance-Kept decimal ev p s.manager l he) in
        subst IsSound (sym e) (
          subst (λ b. Settled s.owner b m) (sym k.0)
              (Settled-Kept s.owner s.manager.started s.manager m p r k h.0),
          subst (λ x. Writable x m.running) (sym k.4.1) tt,
        )

    -- After any steps of one owner, who makes one call at a time, and of the goroutines: while no call
    -- is in progress and the manager is not started, nothing runs and no queue can be got; once it is
    -- started, and until a stop has ended, each enabled queue can be got. A rollback and a stop wait
    -- with a canceled context. Without a map of errors no goroutine runs.
    pub Reaches-IsSound :
        (config : List (String × QueueConfig)) (handlers : List (String × H)) (w : W)
        (t : System H D W)
        → Reaches backend_of decimal
            (record { manager = new_manager config handlers; world = w; owner = idle })
            t
        → IsSound t
    unfolding new_manager
    Reaches-IsSound config handlers w t here = ((refl, refl), refl)
    Reaches-IsSound config handlers w t (next r s) =
        Step-IsSound _ t (Reaches-IsSound config handlers w _ r) s

    -- A goroutine that runs, in whatever state the manager has come to, can do its next step: it does
    -- not add to a nil map of errors.
    pub no_goroutine_panics :
        (config : List (String × QueueConfig)) (handlers : List (String × H)) (w : W)
        (t : System H D W) (p : Process) (ev : Event)
        → Reaches backend_of decimal
            (record { manager = new_manager config handlers; world = w; owner = idle })
            t
        → is_running p t.manager.running ≡ true
        → advance decimal ev p t.manager ≢ none
    no_goroutine_panics config handlers w t p ev reached r e =
        let (l, he) =
          errors_of_running t.manager p (Reaches-IsSound config handlers w t reached).1 r in
        subst (Kept t.manager) e (advance-Kept decimal ev p t.manager l he)

-- ===== src/Service/Manager/Lifecycle.antt =====
-- A manager between the calls of its owner and the steps of its goroutines (asyncqueue/manager.go), in
-- any order. The owner makes one call of `StartWorker` and `Stop` at a time; a wait for the goroutines
-- and the resets that follow it are one step. A start that panics ends the program.
use async_queue_go.Prelude.{
  ℕ, String, ◌≡◌, refl, Bool, true, false, not, ◌||◌, Option, none, some, List, [], ◌∷◌,
}
use async_queue_go.Prelude.Int.{ℤ}
use async_queue_go.Service.Facade.{Backend}
use async_queue_go.Service.Manager.{
  Process, Failure, Manager, register_driver, rolled_back, begin_stop, end_stop,
}
use async_queue_go.Service.Manager.Start.{
  Started, ready, already_started, panicked, refused_start, create_failed, start_worker,
}
use async_queue_go.Service.Manager.Goroutines.{
  same, record_error, exits, start_fails, wait_ends, restart_head, restart_tail,
}
use async_queue_go.Prelude.Tests.{by_test}
use async_queue_go.Service.Manager.Launch.{AllOpen}

-- What the owner is in: no call, the wait of a rollback, or the wait of `Stop`.
pub data Phase : Type 0 where
  idle rolling_back stopping : Phase

pub record System (H D W : Type 0) : Type 0 where
  pub manager : Manager H D
  pub world : W
  pub owner : Phase

-- What a goroutine does next.
pub data Event : Type 0 where
  start_failed : ℕ → Event
  wait_ended loop_started loop_ended : Option ℕ → Event

abbrev pub is_running : Process → List Process → Bool
is_running p [] = false
is_running p (q ∷ l) = same p q || is_running p l

-- The loop is that of `runWorkerWithAutoRestart`.
abbrev pub fits : Event → Process → Bool
fits (start_failed e) p = not p.restarting
fits (wait_ended e) p = not p.restarting
fits (loop_started e) p = p.restarting
fits (loop_ended e) p = p.restarting

abbrev pub Writable : Option (List (String × Failure)) → List Process → Type 0
Writable none running = running ≡ []
Writable (some errors) running = Unit {0}

module _ {H D : Type 0} where
  unfoldable pub advance : (ℤ → String) → Event → Process → Manager H D → Option (Manager H D)
  advance decimal (start_failed e) p m = start_fails decimal p e m
  advance decimal (wait_ended e) p m = wait_ends decimal p e m
  advance decimal (loop_started e) p m = restart_head decimal p e m
  advance decimal (loop_ended e) p m = restart_tail decimal p e m

  abbrev pub Settled : Phase → Bool → Manager H D → Type 0
  Settled idle false m = (m.running ≡ []) × (m.queues ≡ [])
  Settled idle true m = AllOpen m.config m.queues
  Settled rolling_back false m = m.canceled ≡ true
  Settled rolling_back true m = ⊥
  Settled stopping false m = ⊥
  Settled stopping true m = AllOpen m.config m.queues × (m.canceled ≡ true)

  -- The step has not panicked and left all else as it was.
  abbrev pub Kept : Manager H D → Option (Manager H D) → Type 0
  Kept m none = ⊥
  Kept m (some m') =
      (m'.started ≡ m.started)
      × (m'.canceled ≡ m.canceled)
      × (m'.queues ≡ m.queues)
      × (m'.config ≡ m.config)
      × ((l : List (String × Failure)) × (m'.errors ≡ some l))

  module _ (decimal : ℤ → String) where
    record_error-Kept :
        (p : Process) (e : Failure) (m : Manager H D) (l : List (String × Failure))
        → m.errors ≡ some l
        → Kept m (record_error decimal p e m)
    unfolding record_error
    record_error-Kept p e m l h = rw h (refl, refl, refl, refl, (_, refl))

    exits-Kept :
        (p : Process) (e : Failure) (m : Manager H D) (l : List (String × Failure))
        → m.errors ≡ some l
        → Kept m (exits decimal p e m)
    unfolding record_error
    exits-Kept p e m l h = rw h (refl, refl, refl, refl, (_, refl))

    pub advance-Kept :
        (ev : Event) (p : Process) (m : Manager H D) (l : List (String × Failure))
        → m.errors ≡ some l
        → Kept m (advance decimal ev p m)
    unfolding advance start_fails wait_ends restart_head restart_tail
    advance-Kept (start_failed e) p m l h = exits-Kept p _ m l h
    advance-Kept (wait_ended none) p m l h = (refl, refl, refl, refl, (l, h))
    advance-Kept (wait_ended (some e)) p m l h = exits-Kept p _ m l h
    advance-Kept (loop_started none) p m l h =
        by_test (Kept m) m.canceled _ _ (λ on. (refl, refl, refl, refl, (l, h)))
          (λ off. (refl, refl, refl, refl, (l, h)))
    advance-Kept (loop_started (some e)) p m l h =
        by_test (Kept m) m.canceled _ _ (λ on. (refl, refl, refl, refl, (l, h)))
          (λ off. exits-Kept p _ m l h)
    advance-Kept (loop_ended none) p m l h =
        by_test (Kept m) m.canceled _ _ (λ on. (refl, refl, refl, refl, (l, h)))
          (λ off. (refl, refl, refl, refl, (l, h)))
    advance-Kept (loop_ended (some e)) p m l h =
        by_test (Kept m) m.canceled _ _ (λ on. exits-Kept p _ m l h)
          (λ off. record_error-Kept p _ m l h)

module _ {H D W : Type 0} where
  -- A created queue that fails leaves the owner in the wait of the rollback; `none` is the panic.
  abbrev pub after_start : Started × Manager H D × W → Option (System H D W)
  after_start (panicked, m, w) = none
  after_start (create_failed name e, m, w) =
      some (record { manager = m; world = w; owner = rolling_back })
  after_start (ready, m, w) = some (record { manager = m; world = w; owner = idle })
  after_start (already_started, m, w) = some (record { manager = m; world = w; owner = idle })
  after_start (refused_start e, m, w) = some (record { manager = m; world = w; owner = idle })

  -- What holds between any two steps.
  abbrev pub IsSound : System H D W → Type 0
  IsSound s =
      Settled s.owner s.manager.started s.manager × Writable s.manager.errors s.manager.running

  module _ (backend_of : D → String → Backend W) (decimal : ℤ → String) where
    pub data Step (s t : System H D W) : Type 0 where
      registers :
          (name : String) (d : D)
          → t ≡ record s { manager = register_driver name d s.manager }
          → Step s t
      -- the drivers' own state, which others change too
      world_moves : (w : W) → t ≡ record s { world = w } → Step s t
      starts :
          s.owner ≡ idle
          → after_start (start_worker backend_of s.manager s.world) ≡ some t
          → Step s t
      rolls_back :
          s.owner ≡ rolling_back
          → s.manager.running ≡ []
          → t ≡ record s { manager = rolled_back s.manager; owner = idle }
          → Step s t
      stops :
          (m : Manager H D)
          → s.owner ≡ idle
          → begin_stop s.manager ≡ some m
          → t ≡ record s { manager = m; owner = stopping }
          → Step s t
      stopped :
          s.owner ≡ stopping
          → s.manager.running ≡ []
          → t ≡ record s { manager = (end_stop s.manager).1; owner = idle }
          → Step s t
      stop_times_out : s.owner ≡ stopping → t ≡ record s { owner = idle } → Step s t
      advances :
          (ev : Event) (p : Process) (m : Manager H D)
          → fits ev p ≡ true
          → is_running p s.manager.running ≡ true
          → advance decimal ev p s.manager ≡ some m
          → t ≡ record s { manager = m }
          → Step s t

    pub data Reaches (s : System H D W) : System H D W → Type 0 where
      here : Reaches s s
      next : {t u : System H D W} → Reaches s t → Step t u → Reaches s u

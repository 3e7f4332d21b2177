-- ===== src/Service/Server/Running.antt =====
-- `Run` of asyncqueue/manager.go with its start, and `Run` of asyncqueue/server.go. Of the backends'
-- state only what the start does with it is followed.
use async_queue_go.Prelude.{
  String, ◌≡◌, refl, sym, ◌∙◌, true, false, Option, none, some, List, [], ◌∷◌, arith, str_eq,
  if◌then◌else◌,
}
use mathlib.Core.Option
use mathlib.Core.Path.{subst}
use async_queue_go.Prelude.Tests.{by_test}
use async_queue_go.Prelude.Int.{ℤ, pos, negsuc, leb_ℤ, ◌≤ℤ◌}
use async_queue_go.Service.Facade.{Backend, Outcome, Refusal, done, refused}
use async_queue_go.Service.Startup.{
  QueueConfig, get, AllReady, shutdown_timeout, check_start_worker_options,
}
use async_queue_go.Service.Manager.{
  Manager, Process, Queue, rolled_back, new_manager, register_driver,
}
use async_queue_go.Service.Manager.Start.{
  Started, ready, already_started, panicked, refused_start, create_failed, seconds, start_worker,
  start_each, open_queue, with_queue, add_consumers,
}
use async_queue_go.Service.Manager.Launch.{AllOpen, Leaves, start_worker-Leaves}
use async_queue_go.Service.Manager.Lifecycle.{Event, Kept}
use async_queue_go.Service.Manager.Running.{
  Ending, goroutines_ended, shut_down, timed_out, Result, Ended, after_wait, advance_all,
  advance_all-Kept, run, run-Ended,
}
use async_queue_go.Service.Server.{
  merge, register_all, config-register_all, new_server, before_run, IsMap, with_drivers,
  server_checks_pass,
}

pub data Returned : Type 0 where
  start_error : Started → Returned
  ran : Result → Returned

-- A stop without a positive timeout waits until the goroutines have ended.
abbrev pub in_force : ℤ → Ending → Ending
in_force timeout timed_out = if leb_ℤ timeout (pos 0) then shut_down else timed_out
in_force timeout e = e

module _ {H D W : Type 0} (decimal : ℤ → String) (backend_of : D → String → Backend W) where
  -- After the start: the rollback with its wait, or the rest of `Run`. `none` is a panic.
  abbrev after_start :
      Ending
      → List (Event × Process)
      → Started × Manager H D × W
      → Option (Returned × Manager H D × Manager H D) × W
  after_start ending es (ready, m, w) =
      (Option.map (λ p. (ran p.0, p.1, p.2)) (run decimal ending es m), w)
  after_start ending es (create_failed name e, m, w) = (
    after_wait decimal (λ x. (start_error (create_failed name e), rolled_back x))
        (advance_all decimal es m),
    w,
  )
  after_start ending es (panicked, m, w) = (none, w)
  after_start ending es (s, m, w) = (some (start_error s, m, m), w)

  -- `Manager.Run` with a shutdown timeout, the end that it meets, and the steps of the goroutines.
  unfoldable pub run_manager :
      ℤ
      → Ending
      → List (Event × Process)
      → Manager H D
      → W
      → Option (Returned × Manager H D × Manager H D) × W
  run_manager timeout ending es m w =
      after_start (in_force timeout ending) es (start_worker backend_of m w)

  -- `Server.Run` with the handlers that it is given.
  unfoldable pub run_server :
      List (String × H)
      → Ending
      → List (Event × Process)
      → Manager H D
      → W
      → Option (Returned × Manager H D × Manager H D) × W
  run_server given ending es m w =
      run_manager (seconds (shutdown_timeout m.config)) ending es (before_run given m) w

-- No enabled queue is configured with a negative number of processes.
abbrev pub NoneNegative : List (String × QueueConfig) → Type 0
NoneNegative [] = Unit {0}
NoneNegative ((name, cfg) ∷ rest) =
    ((cfg.enabled ≡ true) → pos 0 ≤ℤ cfg.processes) × NoneNegative rest

-- A start that succeeds, or that is rolled back.
abbrev IsBegun : Started → Type 0
IsBegun ready = Unit {0}
IsBegun (create_failed name e) = Unit {0}
IsBegun _ = ⊥

module _ {H D W : Type 0} (backend_of : D → String → Backend W) where
  abbrev AllBegin : (Manager H D → W → Started × Manager H D × W) → Type 0
  AllBegin f = (m : Manager H D) (w : W) → IsBegun (f m w).0

  add_consumers-IsBegun :
      (name : String) (cfg : QueueConfig) (z : ℤ)
      (rest : Manager H D → W → Started × Manager H D × W)
      → pos 0 ≤ℤ z
      → AllBegin rest
      → AllBegin (add_consumers backend_of name cfg z rest)
  add_consumers-IsBegun name cfg (pos n) rest h k m w = k _ w
  add_consumers-IsBegun name cfg (negsuc n) rest h k m w = absurd (omega arith)

  with_queue-IsBegun :
      (name : String) (cfg : QueueConfig) (rest : Manager H D → W → Started × Manager H D × W)
      (out : Outcome (Queue D) × W) (m : Manager H D)
      → pos 0 ≤ℤ cfg.processes
      → AllBegin rest
      → IsBegun (with_queue backend_of name cfg rest out m).0
  with_queue-IsBegun name cfg rest (done q, w) m h k =
      add_consumers-IsBegun name cfg cfg.processes rest h k _ w
  with_queue-IsBegun name cfg rest (refused e, w) m h k = tt

  start_each-IsBegun :
      (configs : List (String × QueueConfig))
      → NoneNegative configs
      → (m : Manager H D) (w : W) → IsBegun (start_each backend_of configs m w).0
  unfolding start_each
  start_each-IsBegun [] h m w = tt
  start_each-IsBegun ((name, cfg) ∷ configs) h m w =
      by_test {A = Started × Manager H D × W} (λ p. IsBegun p.0) cfg.enabled _ _
        (λ on.
          with_queue-IsBegun name cfg (start_each backend_of configs)
            (open_queue backend_of (get cfg.driver m.drivers) name cfg w) m (h.0 on)
            (start_each-IsBegun configs h.1))
        (λ off. start_each-IsBegun configs h.1 m w)

  start_worker-IsBegun :
      (m : Manager H D) (w : W)
      → m.started ≡ false
      → check_start_worker_options m.handlers m.drivers m.config ≡ none
      → NoneNegative m.config
      → IsBegun (start_worker backend_of m w).0
  unfolding start_worker
  start_worker-IsBegun m w off checked h = rw off (rw checked (start_each-IsBegun m.config h _ w))

module _ {H D : Type 0} (decimal : ℤ → String) where
  -- What `Run` gives, by its result, for a manager with this configuration: the manager when the wait
  -- for the goroutines ends, and what is left of it.
  abbrev pub Runs :
      Ending → List (String × QueueConfig) → Option (Returned × Manager H D × Manager H D) → Type 0
  Runs ending config none = ⊥
  Runs ending config (some (start_error (create_failed name e), x, m')) =
      (x.started ≡ false)
      × (m'.started ≡ false)
      × (m'.queues ≡ [])
      × (m'.workers ≡ [])
      × (m'.forwarders ≡ [])
  Runs ending config (some (start_error s, x, m')) = ⊥
  Runs ending config (some (ran result, x, m')) =
      AllOpen config x.queues × Ended decimal ending x (some (result, x, m'))

  rolled_back-Runs :
      (ending : Ending) (config : List (String × QueueConfig)) (name : String) (e : Refusal)
      (m : Manager H D) (o : Option (Manager H D))
      → m.started ≡ false
      → Kept m o
      → Runs ending config
          (after_wait decimal (λ x. (start_error (create_failed name e), rolled_back x)) o)
  unfolding rolled_back
  rolled_back-Runs ending config name e m none off k = k
  rolled_back-Runs ending config name e m (some x) off k = (k.0 ∙ off, refl, refl, refl, refl)

  -- What was open at the start is so when the wait ends.
  still_open :
      (config : List (String × QueueConfig)) (m x : Manager H D)
      → AllOpen config m.queues
      → x.queues ≡ m.queues
      → AllOpen config x.queues
  still_open config m x opens e = subst (λ qs. AllOpen config qs) (sym e) opens

  ran-Runs :
      (ending : Ending) (config : List (String × QueueConfig)) (m : Manager H D)
      (o : Option (Result × Manager H D × Manager H D))
      → AllOpen config m.queues
      → Ended decimal ending m o
      → Runs ending config (Option.map (λ p. (ran p.0, p.1, p.2)) o)
  ran-Runs ending config m none opens h = h
  ran-Runs goroutines_ended config m (some (r, x, m')) opens ((on, same), result, left) =
      (still_open config m x opens same, ((on, refl), result, left))
  ran-Runs shut_down config m (some (r, x, m')) opens
        ((on, same), canceled, result, errs, off, shut) =
      (still_open config m x opens same, ((on, refl), canceled, result, errs, off, shut))
  ran-Runs timed_out config m (some (r, x, m')) opens ((on, same), canceled, result, left) =
      (still_open config m x opens same, ((on, refl), canceled, result, left))

  module _ {W : Type 0} (backend_of : D → String → Backend W) where
    after_start-Runs :
        (ending : Ending) (es : List (Event × Process)) (m : Manager H D) (s : Started)
        (m' : Manager H D) (w : W)
        → Leaves m s m'
        → IsBegun s
        → Runs ending m.config (after_start decimal backend_of ending es (s, m', w)).0
    after_start-Runs ending es m ready m' w h begun =
        let (off, on, opens, launched, errs, ctx, conf) = h in
        ran-Runs ending m.config m' _ opens (run-Ended decimal ending es m' [] on errs)
    after_start-Runs ending es m (create_failed name e) m' w h begun =
        rolled_back-Runs ending m.config name e m' _ h.0 (advance_all-Kept decimal es m' [] h.1)
    after_start-Runs ending es m already_started m' w h begun = absurd begun
    after_start-Runs ending es m (refused_start e) m' w h begun = absurd begun
    after_start-Runs ending es m panicked m' w h begun = absurd begun

    -- A run of a manager that was not started, with a configuration that passes the checks.
    run_manager-Runs :
        (timeout : ℤ) (ending : Ending) (es : List (Event × Process)) (m : Manager H D) (w : W)
        → m.started ≡ false
        → check_start_worker_options m.handlers m.drivers m.config ≡ none
        → NoneNegative m.config
        → Runs
            (in_force timeout ending)
            m.config
            (run_manager decimal backend_of timeout ending es m w).0
    unfolding run_manager
    run_manager-Runs timeout ending es m w off checked h =
        after_start-Runs (in_force timeout ending) es m _ _ _ (start_worker-Leaves backend_of m w)
          (start_worker-IsBegun backend_of m w off checked h)

    started-register_all :
        (l : List (String × D)) (m : Manager H D) → (register_all l m).started ≡ m.started
    unfolding register_all register_driver
    started-register_all [] m = refl
    started-register_all ((n, d) ∷ l) m =
        started-register_all l (register_driver n d m)
        ∙ by_test {A = Manager H D} (λ x. x.started ≡ m.started) (str_eq n "") _ _ (λ e. refl)
            (λ e. refl)

    -- If each enabled queue has a handler among those given to `Run`, names a driver that the options
    -- register, and has no negative number of processes, then `Run` of a new server does not panic
    -- and is not refused, whatever its goroutines do and however it ends. Either a queue could not
    -- be made, and the manager is left without queues, ready for another start; or the manager is
    -- started when the wait for the goroutines ends, with a queue open for every enabled one, and the
    -- run gives back the errors that it has then, joined, or ends by the timeout of the stop.
    pub run_server-Runs :
        (config : List (String × QueueConfig)) (options : List (String × D))
        (given own : List (String × H)) (ending : Ending) (es : List (Event × Process)) (w : W)
        → IsMap given
        → AllReady given (with_drivers options []) config
        → NoneNegative config
        → Runs
            (in_force (seconds (shutdown_timeout config)) ending)
            config
            (run_server decimal backend_of given ending es
              (record (new_server config options) { handlers = own })
              w).0
    unfolding run_server before_run new_server new_manager
    run_server-Runs config options given own ending es w map bound calm =
        let new = new_manager config [] in
        let drivers = with_drivers options [] in
        let m = record (register_all drivers new) { handlers = merge given own } in
        let conf = config-register_all drivers new in
        subst
          (λ c.
            Runs (in_force (seconds (shutdown_timeout c)) ending) c
              (run_manager decimal backend_of (seconds (shutdown_timeout m.config)) ending es m
                w).0)
          conf
          (run_manager-Runs (seconds (shutdown_timeout m.config)) ending es m w
            (started-register_all drivers new)
            (server_checks_pass config options given own map bound)
            (subst (λ c. NoneNegative c) (sym conf) calm))

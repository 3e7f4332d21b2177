-- ===== src/Tests/Manager.antt =====
-- The theorems on the manager at a concrete configuration and backend.
use async_queue_go.Prelude.{ℕ, String, ◌≡◌, ◌≢◌, refl, none, some, List, [], ◌∷◌}
use async_queue_go.Prelude.Int.{ℤ, pos, negsuc}
use async_queue_go.Queue.RedisDriver.{return, throw, missing}
use native.Mathlib.Omega.{arith}
use async_queue_go.Service.Options.{apply_all, apply, default_queue_options}
use async_queue_go.Service.Facade.{Backend, new_async_queue}
use async_queue_go.Service.Startup.{
  shutdown_timeout, get, handle, check_start_worker_options, AllReady,
}
use async_queue_go.Service.Server.{with_drivers, with_driver, new_server}
use async_queue_go.Service.Server.Running.{Runs, in_force, run_server, run_server-Runs}
use async_queue_go.Service.Manager.{Process, new_manager, register_driver}
use async_queue_go.Service.Manager.Start.{
  seconds, panicked, queue_options, consumers, start_each, start_worker, forwarder,
}
use async_queue_go.Service.Manager.Launch.{Leaves, start_worker-Leaves}
use async_queue_go.Service.Manager.Lifecycle.{
  Event, idle, System, wait_ended, advance, after_start, IsSound, Reaches, here, next, registers,
  starts,
}
use async_queue_go.Service.Manager.Running.{Ended, goroutines_ended, shut_down, run, run-Ended}
use async_queue_go.Service.Manager.Safety.{Reaches-IsSound, no_goroutine_panics}
use async_queue_go.Tests.Services.{order_config, queues, handlers}

-- A backend that is up.
abbrev backend_of : ℕ → String → Backend ℕ
backend_of d channel = record {
  ping = return tt;
  push = λ m delay ttl. return m;
  get = λ id. throw missing;
  cancel = λ id. throw missing;
  reload = λ queue w. (some (0, none), w);
  flush = λ queue. return tt;
  info = throw missing;
}

abbrev decimal : ℤ → String
decimal (pos n) = "1"
decimal (negsuc n) = "-1"

abbrev at_first : System ℕ ℕ ℕ
at_first = record { manager = new_manager queues handlers; world = 0; owner = idle }

abbrev registered : System ℕ ℕ ℕ
registered = record at_first { manager = register_driver "redis" 7 at_first.manager }

abbrev launched : System ℕ ℕ ℕ
launched = elim (after_start (start_worker backend_of registered.manager 0)) [
  | none ↦ registered
  | some t ↦ t
]

registered-launched : after_start (start_worker backend_of registered.manager 0) ≡ some launched
unfolding new_manager register_driver start_worker check_start_worker_options start_each get handle
    new_async_queue apply_all apply default_queue_options queue_options consumers
registered-launched = refl

reached : Reaches backend_of decimal at_first launched
reached = next (next here (registers "redis" 7 refl)) (starts refl registered-launched)

start_worker-Leaves_example :
    let p = start_worker backend_of registered.manager 0 in Leaves registered.manager p.0 p.1
start_worker-Leaves_example = start_worker-Leaves backend_of registered.manager 0

Reaches-IsSound_example : IsSound launched
Reaches-IsSound_example = Reaches-IsSound backend_of decimal queues handlers 0 launched reached

no_goroutine_panics_example :
    advance decimal (wait_ended (some 3)) (forwarder "order") launched.manager ≢ none
unfolding new_manager register_driver start_worker check_start_worker_options start_each get handle
    new_async_queue apply_all apply default_queue_options queue_options consumers
no_goroutine_panics_example =
    no_goroutine_panics backend_of decimal queues handlers 0 launched (forwarder "order")
      (wait_ended (some 3)) reached refl

-- A negative number of processes.
negative_processes :
    let m = record registered.manager {
      config = ("order", record order_config { processes = negsuc 0 }) ∷ [];
    } in
    (start_worker backend_of m 0).0 ≡ panicked
unfolding new_manager register_driver start_worker check_start_worker_options start_each get handle
    new_async_queue apply_all apply default_queue_options queue_options consumers
negative_processes = refl

-- The forwarder ends with an error.
abbrev steps : List (Event × Process)
steps = (wait_ended (some 3), forwarder "order") ∷ []

abbrev drivers : List (String × ℕ)
drivers = ("redis", 2) ∷ ("", 3) ∷ []

queues-AllReady : AllReady handlers (with_drivers drivers []) queues
unfolding get handle with_drivers with_driver
queues-AllReady = (λ on. ((1, refl), refl, (2, refl)), tt)

run_server-Runs_example :
    Runs decimal
      (in_force (seconds (shutdown_timeout queues)) shut_down)
      queues
      (run_server decimal backend_of handlers shut_down steps
        (record (new_server queues drivers) { handlers = [] })
        0).0
unfolding get
run_server-Runs_example =
    run_server-Runs decimal backend_of queues drivers handlers [] shut_down steps 0 (refl, tt)
      queues-AllReady ((λ on. omega arith), tt)

run-Ended_example :
    Ended decimal goroutines_ended launched.manager
      (run decimal goroutines_ended steps launched.manager)
unfolding new_manager register_driver start_worker check_start_worker_options start_each get handle
    new_async_queue apply_all apply default_queue_options queue_options consumers
run-Ended_example = run-Ended decimal goroutines_ended steps launched.manager [] refl refl

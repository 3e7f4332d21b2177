-- ===== src/Service/Manager.antt =====
-- asyncqueue/manager.go: the state of a manager and its calls but the start. A goroutine is the process
-- that it runs, and `wg` counts those in `running`. Of a context only whether it is done is kept.
-- Handlers are only looked up here, and loggers left out.
pub mod Start
pub mod Launch
pub mod Lifecycle
pub mod Safety
pub mod Settings
pub mod Running
pub mod Goroutines
use async_queue_go.Prelude.{
  ℕ, String, Bool, true, false, Option, none, some, List, [], ◌∷◌, if◌then◌else◌, str_eq,
}
use async_queue_go.Prelude.Int.{ℤ}
use async_queue_go.Service.Options.{QueueOptions}
use async_queue_go.Service.Startup.{QueueConfig, get, handle}

-- A queue facade; `D` is the type of the registered drivers.
pub record Queue (D : Type 0) : Type 0 where
  pub driver : D
  pub channel : String
  pub options : QueueOptions

-- A worker in its goroutine; the forwarder's number is -1. The one in `runWorkerWithAutoRestart` is
-- `restarting`.
pub record Process : Type 0 where
  pub queue : String
  pub number : ℤ
  pub restarting : Bool

pub data Failure : Type 0 where
  forwarder_start forwarder_wait start wait restart_stopped restart_ended : ℕ → Failure

pub record Manager (H D : Type 0) : Type 0 where
  pub config : List (String × QueueConfig)
  pub handlers : List (String × H)
  pub drivers : List (String × D)
  pub queues : List (String × Queue D)
  pub workers : List (String × List Process)
  pub forwarders : List (String × Process)
  pub running : List Process
  pub canceled : Bool
  -- `none` is the nil map, to which no entry can be added
  pub errors : Option (List (String × Failure))
  pub started : Bool

unfoldable pub new_manager :
    {H D : Type 0} → List (String × QueueConfig) → List (String × H) → Manager H D
new_manager config handlers = record {
  config = config;
  handlers = handlers;
  drivers = [];
  queues = [];
  workers = [];
  forwarders = [];
  running = [];
  canceled = false;
  errors = none;
  started = false;
}

module _ {H D : Type 0} where
  unfoldable pub register_driver : String → D → Manager H D → Manager H D
  register_driver driver_name d m =
      if str_eq driver_name "" then m else record m { drivers = handle driver_name d m.drivers }

  unfoldable pub get_queue : String → Manager H D → Option (Queue D)
  get_queue queue_name m = get queue_name m.queues

  -- The end of `rollbackStartLocked`, once every goroutine has ended.
  unfoldable pub rolled_back : Manager H D → Manager H D
  rolled_back m = record m {
    queues = [];
    workers = [];
    forwarders = [];
    errors = none;
    started = false;
  }

  -- `none` is "not started".
  unfoldable pub begin_stop : Manager H D → Option (Manager H D)
  begin_stop m = if m.started then some (record m { canceled = true }) else none

  -- `runErrors`, the errors that are joined; none of them is the nil error.
  unfoldable pub run_errors : Manager H D → List (String × Failure)
  run_errors m = elim m.errors [ none ↦ [] | some l ↦ l ]

  -- The end of `Stop`, once every goroutine has ended.
  unfoldable pub end_stop : Manager H D → List (String × Failure) × Manager H D
  end_stop m =
      (run_errors m, record m { queues = []; workers = []; forwarders = []; started = false })

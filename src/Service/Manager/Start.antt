-- ===== src/Service/Manager/Start.antt =====
-- asyncqueue/manager.go: `StartWorker`, up to the wait of a rollback.
use async_queue_go.Prelude.{
  ℕ, zero, suc, ◌*◌, ◌-◌, String, Bool, true, false, ◌&&◌, Option, none, some, List, [], ◌∷◌, ◌++◌,
  if◌then◌else◌,
}
use async_queue_go.Prelude.Int.{ℤ, pos, negsuc, ltb_ℤ, int64}
use async_queue_go.Service.Options.{
  QueueOptions, QueueOption, pop_timeout, handle_timeout, retry_seconds, message_ttl, max_attempts,
  name, ConsumerOption, concurrent_limit, auto_restart, max_messages, pop_wait, handle_limit,
  retry_delays, ttl, label, process_id,
}
use async_queue_go.Service.Facade.{
  Backend, Refusal, driver_nil, Outcome, done, refused, new_async_queue,
}
use async_queue_go.Service.Startup.{
  QueueConfig, get, handle, StartError, check_start_worker_options,
}
use async_queue_go.Service.Manager.{Queue, Process, Manager}

-- `time.Duration(n) * time.Second`
abbrev pub seconds : ℤ → ℤ
seconds (pos n) = int64 (pos (n * 1_000_000_000))
seconds (negsuc n) = int64 (negsuc (suc n * 1_000_000_000 - 1))

-- The options with which a start makes a queue.
unfoldable pub queue_options : String → QueueConfig → List QueueOption
queue_options queue_name cfg =
    pop_timeout cfg.pop_timeout
    ∷ handle_timeout cfg.handle_timeout
    ∷ retry_seconds cfg.retry_seconds
    ∷ message_ttl cfg.message_ttl
    ∷ max_attempts cfg.max_attempts
    ∷ name queue_name
    ∷ []

-- The options of a consumer, at the start and at each automatic restart.
unfoldable pub worker_options : String → QueueConfig → QueueOptions → ℤ → List ConsumerOption
worker_options queue_name cfg q i =
    concurrent_limit cfg.concurrent
    ∷ auto_restart cfg.auto_restart
    ∷ max_messages cfg.max_messages
    ∷ pop_wait (seconds q.pop_timeout)
    ∷ handle_limit (seconds q.handle_timeout)
    ∷ retry_delays q.retry_seconds
    ∷ ttl q.message_ttl
    ∷ label queue_name
    ∷ process_id i
    ∷ []

pub data Started : Type 0 where
  ready already_started panicked : Started
  refused_start : StartError → Started
  -- the rollback follows
  create_failed : String → Refusal → Started

abbrev pub forwarder : String → Process
forwarder queue_name = record { queue = queue_name; number = negsuc 0; restarting = false }

-- The consumers `i`, `i + 1`, … of a queue, `n` of them.
unfoldable pub consumers : String → Bool → ℕ → ℕ → List Process
consumers queue_name restarting i zero = []
consumers queue_name restarting i (suc n) =
    record { queue = queue_name; number = pos i; restarting = restarting }
    ∷ consumers queue_name restarting (suc i) n

module _ {D W : Type 0} (backend_of : D → String → Backend W) where
  abbrev opened : D → String → Outcome QueueOptions × W → Outcome (Queue D) × W
  opened d channel (done o, w) = (done (record { driver = d; channel = channel; options = o }), w)
  opened d channel (refused e, w) = (refused e, w)

  abbrev pub open_queue : Option D → String → QueueConfig → W → Outcome (Queue D) × W
  open_queue none queue_name cfg w = (refused driver_nil, w)
  open_queue (some d) queue_name cfg w =
      opened d cfg.channel
        (new_async_queue (backend_of d cfg.channel) cfg.channel (queue_options queue_name cfg) w)

module _ {H D : Type 0} where
  abbrev pub add_queue : String → Queue D → Manager H D → Manager H D
  add_queue queue_name q m = record m {
    queues = handle queue_name q m.queues;
    forwarders = handle queue_name (forwarder queue_name) m.forwarders;
    running = forwarder queue_name ∷ m.running;
  }

  abbrev pub add_workers : String → List Process → Manager H D → Manager H D
  add_workers queue_name ps m = record m {
    workers = handle queue_name ps m.workers;
    running = ps ++ m.running;
  }

  abbrev pub fresh : Manager H D → Manager H D
  fresh m = record m { canceled = false; errors = some []; workers = []; forwarders = [] }

abbrev Continuation : Type 0 → Type 0 → Type 0 → Type 0
Continuation H D W = Manager H D → W → Started × Manager H D × W

module _ {H D W : Type 0} (backend_of : D → String → Backend W) where
  -- A negative number of processes panics when the slice of workers is made, after the forwarder
  -- was launched.
  abbrev pub add_consumers : String → QueueConfig → ℤ → Continuation H D W → Continuation H D W
  add_consumers queue_name cfg (negsuc n) rest m w = (panicked, m, w)
  add_consumers queue_name cfg (pos n) rest m w =
      rest
        (add_workers queue_name
          (consumers queue_name (cfg.auto_restart && ltb_ℤ (pos 0) cfg.max_messages) 0 n) m)
        w

  -- The rest of a round, with the queue or the error; `rollbackStartLocked` begins with the cancel.
  abbrev pub with_queue :
      String
      → QueueConfig
      → Continuation H D W
      → Outcome (Queue D) × W
      → Manager H D
      → Started × Manager H D × W
  with_queue queue_name cfg rest (done q, w) m =
      add_consumers queue_name cfg cfg.processes rest (add_queue queue_name q m) w
  with_queue queue_name cfg rest (refused e, w) m =
      (create_failed queue_name e, record m { canceled = true }, w)

  unfoldable pub start_each : List (String × QueueConfig) → Continuation H D W
  start_each [] m w = (ready, record m { started = true }, w)
  start_each ((queue_name, cfg) ∷ configs) m w =
      let rest = start_each configs in
      if cfg.enabled
      then with_queue queue_name cfg rest
          (open_queue backend_of (get cfg.driver m.drivers) queue_name cfg w) m
      else rest m w

  abbrev pub when_checked : Option StartError → Continuation H D W
  when_checked (some e) m w = (refused_start e, m, w)
  when_checked none m w = start_each m.config (fresh m) w

  unfoldable pub start_worker : Continuation H D W
  start_worker m w =
      if m.started
      then (already_started, m, w)
      else when_checked (check_start_worker_options m.handlers m.drivers m.config) m w

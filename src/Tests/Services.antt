-- ===== src/Tests/Services.antt =====
-- The theorems on the worker, the options and the start at concrete inputs.
use async_queue_go.Prelude.{ℕ, String, ◌≡◌, refl, true, false, none, some, List, [], ◌∷◌, inl}
use async_queue_go.Prelude.Int.{pos}
use async_queue_go.Worker.{
  World, new_worker, start, finish, stop_timeout, begin_wait, begin_stop, end_wait, end_stop,
  normal, failure, error_of,
}
use async_queue_go.Worker.Lifecycle.{IsSound, start-finish-wait, late_finish_ends_next_run}
use async_queue_go.Service.Startup.{QueueConfig}

abbrev at_rest : World
at_rest = record {
  worker = record { started = false; cancel = false; done = none; err = none };
  next = 0;
  closed = λ ch. false;
}

at_rest-IsSound : IsSound at_rest
at_rest-IsSound = record { fresh = λ ch h. refl; linked = inl (refl, refl) }

start-finish-wait_example :
    let (refused, s1) = start at_rest in
    (refused ≡ none)
    × (begin_wait s1 ≡ some 0)
    × (begin_stop s1 ≡ some 0)
    × ((s2 : World) × (s3 : World) × (finish (failure 4) s1 ≡ some s2)
        × (end_wait 0 s2 ≡ some (error_of (failure 4), s3))
        × (end_stop (pos 5) false 0 s2 ≡ some (error_of (failure 4), s3))
        × (s3.worker ≡ new_worker)
        × IsSound s3)
start-finish-wait_example = start-finish-wait at_rest (failure 4) (pos 5) at_rest-IsSound refl

late_finish_ends_next_run_example :
    let s1 = (start (stop_timeout (start at_rest).1).1).1 in
    (finish (failure 4) (stop_timeout (start at_rest).1).1 ≡ none)
    × (begin_wait s1 ≡ some 1)
    × ((s2 : World) × (s3 : World) × (finish (failure 4) s1 ≡ some s2)
        × (finish normal s2 ≡ none)
        × (end_wait 1 s2 ≡ some (error_of (failure 4), s3))
        × (s3.worker.started ≡ false)
        × (finish normal s3 ≡ none))
late_finish_ends_next_run_example =
    late_finish_ends_next_run at_rest (failure 4) normal at_rest-IsSound refl

abbrev pub order_config : QueueConfig
order_config = record {
  driver = "redis";
  channel = "orders";
  enabled = true;
  pop_timeout = pos 2;
  handle_timeout = pos 60;
  retry_seconds = pos 5 ∷ [];
  message_ttl = pos 0;
  max_attempts = pos 3;
  processes = pos 2;
  concurrent = pos 4;
  auto_restart = true;
  max_messages = pos 100;
  shutdown_timeout = pos 240;
}

abbrev pub queues : List (String × QueueConfig)
queues = ("order", order_config) ∷ []

abbrev pub handlers : List (String × ℕ)
handlers = ("order", 1) ∷ []

abbrev drivers : List (String × ℕ)
drivers = ("redis", 2) ∷ []

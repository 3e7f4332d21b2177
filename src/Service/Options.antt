-- ===== src/Service/Options.antt =====
-- asyncqueue/asyncqueue_options.go and pkg/queue/consumer_options.go: functional options, applied in
-- order. Loggers are left out; nil options are skipped by the callers.
use async_queue_go.Prelude.{◌≤◌, String, Bool, List, [], ◌∷◌, arith, if◌then◌else◌, str_eq, length}
use async_queue_go.Prelude.Int.{ℤ, pos, ◌≤ℤ◌, leb_ℤ, ltb_ℤ}
use async_queue_go.Core.Message.{Message}
use async_queue_go.Queue.Backoff.{second}
use async_queue_go.Queue.Consumer.{Hook, Handled, Consumer}

-- Times in seconds.
pub record QueueOptions : Type 0 where
  pub pop_timeout : ℤ
  pub handle_timeout : ℤ
  pub retry_seconds : List ℤ
  pub message_ttl : ℤ
  pub max_attempts : ℤ
  pub name : String

unfoldable pub default_queue_options : String → QueueOptions
default_queue_options channel = record {
  pop_timeout = pos 1;
  handle_timeout = pos 180;
  retry_seconds = pos 30 ∷ pos 90 ∷ pos 300 ∷ [];
  message_ttl = pos 864000;
  max_attempts = pos 3;
  name = channel;
}

-- `WithQueuePopTimeout` and its like.
pub data QueueOption : Type 0 where
  pop_timeout handle_timeout message_ttl max_attempts : ℤ → QueueOption
  retry_seconds : List ℤ → QueueOption
  name : String → QueueOption

abbrev pub or_keep : List ℤ → List ℤ → List ℤ
or_keep [] old = old
or_keep (d ∷ ds) old = d ∷ ds

unfoldable pub apply : QueueOption → QueueOptions → QueueOptions
apply (pop_timeout n) o = record o { pop_timeout = if ltb_ℤ (pos 0) n then n else o.pop_timeout }
apply (handle_timeout n) o = record o {
  handle_timeout = if ltb_ℤ (pos 0) n then n else o.handle_timeout;
}
apply (message_ttl n) o = record o { message_ttl = if leb_ℤ (pos 0) n then n else o.message_ttl }
apply (max_attempts n) o = record o { max_attempts = if ltb_ℤ (pos 0) n then n else o.max_attempts }
apply (retry_seconds l) o = record o { retry_seconds = or_keep l o.retry_seconds }
apply (name n) o = record o { name = if str_eq n "" then o.name else n }

unfoldable pub apply_all : List QueueOption → QueueOptions → QueueOptions
apply_all [] o = o
apply_all (p ∷ ps) o = apply_all ps (apply p o)

-- What the queue relies on.
pub record IsUsable (o : QueueOptions) : Type 0 where
  pub pops : pos 1 ≤ℤ o.pop_timeout
  pub handles : pos 1 ≤ℤ o.handle_timeout
  pub retries : 1 ≤ length o.retry_seconds
  pub lives : pos 0 ≤ℤ o.message_ttl
  pub attempts : pos 1 ≤ℤ o.max_attempts

apply-IsUsable : (p : QueueOption) (o : QueueOptions) → IsUsable o → IsUsable (apply p o)
unfolding apply
apply-IsUsable (retry_seconds []) o h = ground arith
apply-IsUsable (retry_seconds (d ∷ ds)) o h = ground arith
apply-IsUsable _ o h = ground arith

apply_all-IsUsable :
    (ps : List QueueOption) (o : QueueOptions) → IsUsable o → IsUsable (apply_all ps o)
unfolding apply_all
apply_all-IsUsable [] o h = h
apply_all-IsUsable (p ∷ ps) o h = apply_all-IsUsable ps (apply p o) (apply-IsUsable p o h)

-- Whatever options a caller gives, in whatever order, the queue's timeouts and attempt limit are
-- positive, its retry schedule is not empty, and its message time to live is not negative.
pub options-IsUsable :
    (ps : List QueueOption) (channel : String)
    → IsUsable (apply_all ps (default_queue_options channel))
unfolding default_queue_options
options-IsUsable ps channel = apply_all-IsUsable ps _ (omega arith)

-- Durations in nanoseconds.
pub record ConsumerOptions : Type 0 where
  pub concurrent_limit : ℤ
  pub auto_restart : Bool
  pub max_messages : ℤ
  pub pop_timeout : ℤ
  pub handle_timeout : ℤ
  pub pop_retry_backoff : ℤ
  pub pop_retry_max_backoff : ℤ
  pub retry_seconds : List ℤ
  pub message_ttl : ℤ
  -- whether a hook panics on a message; one that is not set does not
  pub hooks : Hook → Message → Bool
  pub name : String
  pub process_id : ℤ

unfoldable pub default_consumer_options : ConsumerOptions
default_consumer_options = record {
  concurrent_limit = pos 10;
  auto_restart = Bool.false;
  max_messages = pos 0;
  pop_timeout = second;
  handle_timeout = pos 180_000_000_000;
  pop_retry_backoff = second;
  pop_retry_max_backoff = pos 30_000_000_000;
  retry_seconds = pos 30 ∷ pos 90 ∷ pos 180 ∷ pos 300 ∷ [];
  message_ttl = pos 864000;
  hooks = λ h m. Bool.false;
  name = "";
  process_id = pos 0;
}

-- `WithConsumerConcurrentLimit` and its like; the deprecated names are aliases.
pub data ConsumerOption : Type 0 where
  concurrent_limit max_messages : ℤ → ConsumerOption
  pop_wait handle_limit pop_retry_backoff pop_retry_max_backoff : ℤ → ConsumerOption
  ttl process_id : ℤ → ConsumerOption
  auto_restart : Bool → ConsumerOption
  retry_delays : List ℤ → ConsumerOption
  label : String → ConsumerOption
  callbacks : (Hook → Message → Bool) → ConsumerOption

abbrev pub if_positive : ℤ → ℤ → ℤ
if_positive n old = if ltb_ℤ (pos 0) n then n else old

abbrev if_not_negative : ℤ → ℤ → ℤ
if_not_negative n old = if leb_ℤ (pos 0) n then n else old

unfoldable pub apply_consumer : ConsumerOption → ConsumerOptions → ConsumerOptions
apply_consumer (concurrent_limit n) o = record o {
  concurrent_limit = if_positive n o.concurrent_limit;
}
apply_consumer (max_messages n) o = record o { max_messages = if_not_negative n o.max_messages }
apply_consumer (pop_wait n) o = record o { pop_timeout = if_positive n o.pop_timeout }
apply_consumer (handle_limit n) o = record o { handle_timeout = if_positive n o.handle_timeout }
apply_consumer (pop_retry_backoff n) o = record o {
  pop_retry_backoff = if_positive n o.pop_retry_backoff;
}
apply_consumer (pop_retry_max_backoff n) o = record o {
  pop_retry_max_backoff = if_positive n o.pop_retry_max_backoff;
}
apply_consumer (ttl n) o = record o { message_ttl = if_not_negative n o.message_ttl }
apply_consumer (process_id n) o = record o { process_id = n }
apply_consumer (auto_restart b) o = record o { auto_restart = b }
apply_consumer (retry_delays l) o = record o { retry_seconds = or_keep l o.retry_seconds }
apply_consumer (label n) o = record o { name = n }
apply_consumer (callbacks f) o = record o { hooks = f }

unfoldable pub apply_consumer_all : List ConsumerOption → ConsumerOptions → ConsumerOptions
apply_consumer_all [] o = o
apply_consumer_all (p ∷ ps) o = apply_consumer_all ps (apply_consumer p o)

-- The options with which `NewConsumer` fills the consumer.
unfoldable pub consumer_options : List ConsumerOption → ConsumerOptions
consumer_options ps =
    let o = apply_consumer_all ps default_consumer_options in
    record o {
      pop_retry_max_backoff =
          if ltb_ℤ o.pop_retry_max_backoff o.pop_retry_backoff
          then o.pop_retry_backoff
          else o.pop_retry_max_backoff;
    }

-- `NewConsumer`: what the handling of one message uses.
unfoldable pub new_consumer : (Message → Handled × Message) → List ConsumerOption → Consumer
new_consumer handler ps =
    let o = consumer_options ps in
    record { retry_delays = o.retry_seconds; hook_panics = o.hooks; handler = handler }

pub record IsRunnable (o : ConsumerOptions) : Type 0 where
  pub concurrency : pos 1 ≤ℤ o.concurrent_limit
  pub limit : pos 0 ≤ℤ o.max_messages
  pub pops : pos 1 ≤ℤ o.pop_timeout
  pub handles : pos 1 ≤ℤ o.handle_timeout
  pub backs_off : pos 1 ≤ℤ o.pop_retry_backoff
  pub retries : 1 ≤ length o.retry_seconds

apply_consumer-IsRunnable :
    (p : ConsumerOption) (o : ConsumerOptions) → IsRunnable o → IsRunnable (apply_consumer p o)
unfolding apply_consumer
apply_consumer-IsRunnable (retry_delays []) o h = ground arith
apply_consumer-IsRunnable (retry_delays (d ∷ ds)) o h = ground arith
apply_consumer-IsRunnable _ o h = ground arith

apply_consumer_all-IsRunnable :
    (ps : List ConsumerOption) (o : ConsumerOptions)
    → IsRunnable o
    → IsRunnable (apply_consumer_all ps o)
unfolding apply_consumer_all
apply_consumer_all-IsRunnable [] o h = h
apply_consumer_all-IsRunnable (p ∷ ps) o h =
    apply_consumer_all-IsRunnable ps (apply_consumer p o) (apply_consumer-IsRunnable p o h)

default-IsRunnable : IsRunnable default_consumer_options
unfolding default_consumer_options
default-IsRunnable = omega arith

-- Whatever options are given, a consumer has room for at least one handler, a message cap that is
-- not negative, positive timeouts, a positive first retry wait that is not above the largest one,
-- and a retry schedule that is not empty.
pub consumer_options-IsRunnable :
    (ps : List ConsumerOption)
    → IsRunnable (consumer_options ps)
      × ((consumer_options ps).pop_retry_backoff ≤ℤ (consumer_options ps).pop_retry_max_backoff)
unfolding consumer_options
consumer_options-IsRunnable ps =
    let h = apply_consumer_all-IsRunnable ps default_consumer_options default-IsRunnable in
    (ground (arith, h), ground arith)

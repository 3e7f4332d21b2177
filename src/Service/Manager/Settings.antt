-- ===== src/Service/Manager/Settings.antt =====
-- The settings under which the consumers of a manager run (asyncqueue/manager.go), by way of the options
-- of its queues (asyncqueue/asyncqueue.go) and of its consumers (pkg/queue/consumer_options.go).
use async_queue_go.Prelude.{false, ◌*◌, ◌≤◌, String, ◌≡◌, refl, List, [], ◌∷◌, arith, length}
use async_queue_go.Prelude.Int.{ℤ, pos, negsuc, pos_part, ◌≤ℤ◌}
use async_queue_go.Service.Options.{
  QueueOptions, apply, apply_all, default_queue_options, IsUsable, options-IsUsable, or_keep,
  if_positive, ConsumerOptions, apply_consumer, apply_consumer_all, consumer_options,
  default_consumer_options, IsRunnable, consumer_options-IsRunnable,
}
use async_queue_go.Service.Startup.{QueueConfig}
use async_queue_go.Service.Manager.Start.{queue_options, worker_options, seconds}

-- A time in seconds, in nanoseconds.
abbrev pub nanoseconds : ℤ → ℤ
nanoseconds z = pos (pos_part z * 1_000_000_000)

seconds-positive : (z : ℤ) → pos 1 ≤ℤ z → z ≤ℤ pos 9_000_000_000 → seconds z ≡ nanoseconds z
seconds-positive (pos n) h k = ground arith
seconds-positive (negsuc n) h k = ground arith

if_positive-seconds :
    (z old : ℤ) → pos 1 ≤ℤ z → z ≤ℤ pos 9_000_000_000 → if_positive (seconds z) old ≡ nanoseconds z
if_positive-seconds z old h k = ground (arith, seconds-positive z h k)

or_keep_new : (l old : List ℤ) → 1 ≤ length l → or_keep l old ≡ l
or_keep_new [] old h = ground arith
or_keep_new (d ∷ l) old h = refl

-- A consumer's settings are those of its queue, and it has no hooks that could panic.
abbrev pub Follows : ConsumerOptions → QueueOptions → Type 0
Follows o q =
    (o.pop_timeout ≡ nanoseconds q.pop_timeout)
    × (o.handle_timeout ≡ nanoseconds q.handle_timeout)
    × (o.retry_seconds ≡ q.retry_seconds)
    × (o.message_ttl ≡ q.message_ttl)
    × (o.hooks ≡ λ h m. false)

worker_options-Follows :
    (queue_name : String) (cfg : QueueConfig) (q : QueueOptions) (i : ℤ)
    → IsUsable q
    → q.pop_timeout ≤ℤ pos 9_000_000_000
    → q.handle_timeout ≤ℤ pos 9_000_000_000
    → Follows (consumer_options (worker_options queue_name cfg q i)) q
unfolding consumer_options apply_consumer_all apply_consumer worker_options default_consumer_options
worker_options-Follows queue_name cfg q i u hp hh = (
  if_positive-seconds q.pop_timeout _ u.pops hp,
  if_positive-seconds q.handle_timeout _ u.handles hh,
  or_keep_new q.retry_seconds _ u.retries,
  ground (arith, u.lives),
  refl,
)

queue_options-bounded :
    (queue_name channel : String) (cfg : QueueConfig)
    → cfg.pop_timeout ≤ℤ pos 9_000_000_000
    → cfg.handle_timeout ≤ℤ pos 9_000_000_000
    → let q = apply_all (queue_options queue_name cfg) (default_queue_options channel) in
      (q.pop_timeout ≤ℤ pos 9_000_000_000) × (q.handle_timeout ≤ℤ pos 9_000_000_000)
unfolding apply_all apply queue_options default_queue_options
queue_options-bounded queue_name channel cfg hp hh = (ground arith, ground arith)

-- With configured timeouts of at most nine billion seconds, a consumer of the manager runs under the
-- timeouts, the retry schedule and the message time to live of its queue, which are usable ones
-- whatever the configuration holds; it has no hooks that could panic; and it has room for at least
-- one handler, a message cap that is not negative, and positive waits.
pub consumers_follow :
    (queue_name channel : String) (cfg : QueueConfig) (i : ℤ)
    → cfg.pop_timeout ≤ℤ pos 9_000_000_000
    → cfg.handle_timeout ≤ℤ pos 9_000_000_000
    → let q = apply_all (queue_options queue_name cfg) (default_queue_options channel) in
      let o = consumer_options (worker_options queue_name cfg q i) in
      IsUsable q × Follows o q × IsRunnable o
consumers_follow queue_name channel cfg i hp hh =
    let u = options-IsUsable (queue_options queue_name cfg) channel in
    let (p, h) = queue_options-bounded queue_name channel cfg hp hh in
    (
      u,
      worker_options-Follows queue_name cfg _ i u p h,
      (consumer_options-IsRunnable (worker_options queue_name cfg _ i)).0,
    )

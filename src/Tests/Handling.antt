-- ===== src/Tests/Handling.antt =====
-- The theorems on messages, waits and the consumer at concrete inputs.
use async_queue_go.Prelude.{◌*◌, ◌^◌, ◌≡◌, refl, true, false, none, some, List, [], ◌∷◌, arith}
use Prim.Native.Nat.{min}
use async_queue_go.Prelude.Int.{pos, negsuc}
use async_queue_go.Core.Outcome
use async_queue_go.Queue.Backoff.{
  advances, new_backoff, second, IsBounded, advances-IsBounded, current-advances,
}
use async_queue_go.Queue.Consumer.{Consumer, Run, Stats, result, answered, process, handle_one}
use async_queue_go.Queue.Consumer.Accounting.{IsBalanced, process-IsBalanced}
use async_queue_go.Queue.Consumer.Commits.{Commit, acks, retry_or_fail}
use async_queue_go.Queue.Consumer.Calls.{recorder, handle_one-calls, ack_hook_panic_commits_twice}
use async_queue_go.Queue.Consumer.Deliveries.{Stored, failing, deliveries, deliveries-failing}
use async_queue_go.Queue.Consumer.Loop.{Limits, Progress}
use async_queue_go.Tests.Fixtures.{letter}

abbrev pub stats : Stats
stats = record {
  processed = 0;
  acked = 0;
  retried = 0;
  requeued = 0;
  failed = 0;
  dropped = 0;
  errors = 0;
}

abbrev pub acking : Consumer
acking = record {
  retry_delays = pos 5 ∷ [];
  hook_panics = λ h m. false;
  handler = λ m. (result Outcome.Result.ack, m);
}

abbrev acking_badly : Consumer
acking_badly = record acking { hook_panics = λ h m. true }

abbrev fresh : Run (List Commit)
fresh = record { driver = []; stats = stats; message = letter }

process-IsBalanced_example :
    IsBalanced (process (recorder none (answered true)) acking "m1" (pos 60) fresh).1.stats
process-IsBalanced_example =
    process-IsBalanced (recorder none (answered true)) acking "m1" (pos 60) fresh (λ h m. refl)
      (λ e. cc) refl

handle_one-calls_example :
    (handle_one (recorder none (answered true)) acking "m1" (pos 60) fresh).1.driver
    ≡ acks "m1" ∷ []
handle_one-calls_example =
    handle_one-calls none (answered true) acking "m1" (pos 60) (λ h m. refl) fresh

ack_hook_panic_commits_twice_example :
    (handle_one (recorder none (answered true)) acking_badly "m1" (pos 60) fresh).1.driver
    ≡ retry_or_fail (pos 5 ∷ []) "m1" letter ∷ acks "m1" ∷ []
ack_hook_panic_commits_twice_example =
    ack_hook_panic_commits_twice (answered true) acking_badly "m1" (pos 60) fresh letter refl refl

abbrev stored : Stored
stored = record { message = letter; moved = false }

deliveries-failing_example : deliveries 9 (failing (pos 5 ∷ [])) "m1" (pos 60) stored ≡ some 3
deliveries-failing_example =
    deliveries-failing (pos 5 ∷ []) "m1" (pos 60) 9 stored 0 2 (omega arith) (omega arith)
      (omega arith) refl refl refl

abbrev pub limits : Limits
limits = record { auto_restart = true; max_messages = pos 1 }

abbrev pub begun : Progress
begun = record { count = 0; backoff = record { initial = second; max = second; current = second } }

current-advances_example :
    (advances 3 (new_backoff (pos 5) (pos 30))).current ≡ pos (min (5 * 2 ^ 3) 30)
current-advances_example = current-advances 3 5 30 (omega arith) (omega arith) (omega arith)

advances-IsBounded_example :
    IsBounded (advances 2 (new_backoff (negsuc 0) (pos 0x7fffffffffffffff)))
advances-IsBounded_example = advances-IsBounded 2 (negsuc 0) (pos 0x7fffffffffffffff)

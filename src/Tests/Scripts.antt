-- ===== src/Tests/Scripts.antt =====
-- The theorems on the scripts and the driver at concrete inputs.
use async_queue_go.Prelude.{◌≡◌, refl, true, arith, if◌then◌else◌, ltb}
use async_queue_go.Prelude.Int.{pos}
use async_queue_go.Redis.Keyspace.{score, zcount, is_some}
use async_queue_go.Redis.Server.{keyspace}
use async_queue_go.Redis.Agreement.{IsRedis-keyspace}
use async_queue_go.Core.Message.{done, dropped}
use async_queue_go.Queue.Keys.{new_keys, message}
use async_queue_go.Queue.State.Enqueue.{push_spec, push_refines}
use async_queue_go.Queue.Lua.Commit.{to_delayed, push, ack, fail, drop, requeue}
use async_queue_go.Queue.Lua.Sequence.{next_seq}
use async_queue_go.Queue.State.{observe}
use async_queue_go.Queue.State.Commit.{commit_spec, fail_spec, requeue_spec, commits_refine}
use async_queue_go.Queue.State.Numbering.{Advances, reached, next_seq-Advances}
use async_queue_go.Queue.RedisDriver.{ok, err, already_ready, in_execution, cancel}
use async_queue_go.Queue.RedisDriver.Replies.{cancel_replies}
use async_queue_go.Tests.Fixtures.{empty, cjson, libraries, one_reserved}

commits_refine_example :
    let k = new_keys "q" in
    let before = observe "q" one_reserved in
    (observe "q" (ack keyspace cjson k.reserved (message k "m1") "m1" (pos 60) one_reserved).1
      ≡ commit_spec cjson done (pos 60) "m1" before)
    × (observe "q" (drop keyspace cjson k.reserved (message k "m1") "m1" (pos 60) one_reserved).1
        ≡ commit_spec cjson dropped (pos 60) "m1" before)
    × (observe "q"
          (fail keyspace cjson k.reserved k.failed (message k "m1") "m1" (pos 60) one_reserved).1
        ≡ fail_spec cjson (pos 60) "m1" before)
    × (observe "q"
          (requeue keyspace cjson k.reserved k.waiting
            (message k "m1")
            "m1"
            (pos 60)
            one_reserved).1
        ≡ requeue_spec cjson (pos 60) "m1" before)
commits_refine_example =
    commits_refine keyspace IsRedis-keyspace cjson "q" "m1" (pos 60) one_reserved

push_refines_example :
    let k = new_keys "q" in
    observe "q"
      (push keyspace k.waiting k.delayed
        (message k "m2")
        "m2"
        "new"
        to_delayed
        (pos 90)
        (pos 600)
        one_reserved).1
    ≡ push_spec to_delayed (pos 90) "m2" "new" (observe "q" one_reserved)
push_refines_example =
    push_refines keyspace IsRedis-keyspace "q" "m2" "new" to_delayed (pos 90) (pos 600) one_reserved

cancel_replies_example :
    let before = observe "q" one_reserved in
    (cancel keyspace libraries (pos 60) "q" "m9" one_reserved).0 ≡ (
      if ltb 0 (zcount "m9" before.delayed)
      then ok true
      else if is_some (score "m9" before.reserved)
      then err in_execution
      else err already_ready)
cancel_replies_example =
    cancel_replies keyspace IsRedis-keyspace libraries (pos 60) "q" "m9" one_reserved
      (λ A m d. refl) refl

next_seq-Advances_example :
    let k = new_keys "q" in
    let (given, db') = next_seq keyspace k.sequence_key k.sequence_epoch 5 empty in
    Advances 5 (reached "q" empty) given (reached "q" db')
unfolding reached
next_seq-Advances_example = next_seq-Advances keyspace IsRedis-keyspace "q" 5 empty (omega arith)

-- ===== src/Tests/Lossless.antt =====
-- The theorem on lost messages at a concrete run.
use async_queue_go.Prelude.{refl, true, arith}
use async_queue_go.Prelude.Int.{pos}
use async_queue_go.Redis.Keyspace.{Keyspace, count, zcount}
use async_queue_go.Redis.Server.{keyspace}
use async_queue_go.Redis.Agreement.{IsRedis-keyspace}
use async_queue_go.Queue.Keys.{new_keys, message}
use async_queue_go.Queue.Lua.Move.{move_timeout, pop}
use async_queue_go.Queue.Lua.Manage.{reload}
use async_queue_go.Queue.State.{observe}
use async_queue_go.Queue.State.Reload.{Source}
use async_queue_go.Queue.State.Alive.{Alive}
use async_queue_go.Queue.State.Exclusive.{Reaches, here, next, expired, reloaded, popped}
use async_queue_go.Queue.State.Lossless.{Reaches-Alive}
use async_queue_go.Tests.Fixtures.{one_reserved}
use async_queue_go.Tests.Statuses.{statuses, statuses-IsCjson}

-- The reservation runs out, and the message is reloaded and claimed again.
abbrev pub ran_out : Keyspace
ran_out =
    let k = new_keys "q" in
    (move_timeout keyspace k.reserved k.timeout k.message_prefix (pos 60) one_reserved).1

abbrev back : Keyspace
back =
    let k = new_keys "q" in
    (reload keyspace statuses k.timeout k.waiting k.message_prefix (pos 70) true ran_out).1

abbrev claimed : Keyspace
claimed =
    let k = new_keys "q" in
    (pop keyspace statuses k.waiting k.reserved k.message_prefix (pos 80) (pos 90) back).1

abbrev redelivery : Reaches keyspace statuses IsRedis-keyspace "q" one_reserved claimed
redelivery =
    next {db1 = back}
      (next {db1 = ran_out} (next {db1 = one_reserved} here (expired (pos 60) refl))
        (reloaded Source.timeout true (pos 70) refl))
      (popped (pos 80) (pos 90) refl)

Reaches-Alive_example : Alive statuses "m1" (observe "q" claimed)
unfolding observe count zcount new_keys message
Reaches-Alive_example =
    Reaches-Alive keyspace statuses IsRedis-keyspace statuses-IsCjson "q" "m1" {db = one_reserved}
      {db' = claimed} (omega arith, refl) redelivery (((tt, tt), tt), tt)

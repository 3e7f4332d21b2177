-- ===== src/Tests/Statuses.antt =====
-- The theorem on stored statuses at a concrete input.
use async_queue_go.Prelude.{String, ◌≡◌, refl, some, str_eq, if◌then◌else◌}
use async_queue_go.Prelude.Int.{pos}
use async_queue_go.Redis.Server.{keyspace}
use async_queue_go.Redis.Agreement.{IsRedis-keyspace}
use async_queue_go.Core.Message.{Status, done, dropped}
use async_queue_go.Queue.Keys.{new_keys, message}
use async_queue_go.Queue.Cjson.{Cjson, IsCjson, IsNamed}
use async_queue_go.Queue.Lua.Commit.{ack, fail, drop, requeue}
use async_queue_go.Queue.State.{observe}
use async_queue_go.Queue.State.Statuses.{HasStatus, commits-HasStatus}
use async_queue_go.Tests.Fixtures.{one_reserved}

-- A JSON library whose tables are the status texts.
abbrev parse : String → Status
parse t =
    if str_eq t "done"
    then done
    else if str_eq t "dropped"
    then dropped
    else if str_eq t "failed"
    then Status.failed
    else if str_eq t "waiting"
    then Status.waiting
    else if str_eq t "reserved"
    then Status.reserved
    else if str_eq t "delayed"
    then Status.delayed
    else if str_eq t "timeout"
    then Status.timeout
    else if str_eq t "canceled"
    then Status.canceled
    else Status.other t

abbrev print : Status → String
print Status.done = "done"
print Status.dropped = "dropped"
print Status.failed = "failed"
print Status.waiting = "waiting"
print Status.reserved = "reserved"
print Status.delayed = "delayed"
print Status.timeout = "timeout"
print Status.canceled = "canceled"
print (Status.other s) = s

abbrev pub statuses : Cjson
statuses = record {
  Table = String;
  decode = λ raw. some raw;
  encode = λ t. t;
  status = λ t. some (parse t);
  set_status = λ s t. print s;
  set_updated_at = λ n t. t;
}

parse-print : (s : Status) → IsNamed s → some (parse (print s)) ≡ some s
parse-print Status.done n = refl
parse-print Status.dropped n = refl
parse-print Status.failed n = refl
parse-print Status.waiting n = refl
parse-print Status.reserved n = refl
parse-print Status.delayed n = refl
parse-print Status.timeout n = refl
parse-print Status.canceled n = refl
parse-print (Status.other s) n = elim n [ ]

pub statuses-IsCjson : IsCjson statuses
statuses-IsCjson = record {
  reread = λ t. (t, refl, refl);
  status-set = λ s t n. parse-print s n;
  status-set_updated_at = λ n t. refl;
}

commits-HasStatus_example :
    let k = new_keys "q" in
    HasStatus statuses done (
      (observe "q"
          (ack keyspace statuses k.reserved (message k "m1") "m1" (pos 60) one_reserved).1).entity
        "m1")
    × HasStatus statuses dropped (
        (observe "q"
            (drop keyspace statuses k.reserved
              (message k "m1")
              "m1"
              (pos 60)
              one_reserved).1).entity
          "m1")
    × HasStatus statuses Status.failed (
        (observe "q"
            (fail keyspace statuses k.reserved k.failed
              (message k "m1")
              "m1"
              (pos 60)
              one_reserved).1).entity
          "m1")
    × HasStatus statuses Status.waiting (
        (observe "q"
            (requeue keyspace statuses k.reserved k.waiting
              (message k "m1")
              "m1"
              (pos 60)
              one_reserved).1).entity
          "m1")
unfolding observe message new_keys
commits-HasStatus_example =
    commits-HasStatus keyspace IsRedis-keyspace statuses statuses-IsCjson "q" "m1" "text" (pos 60)
      one_reserved "text" refl refl

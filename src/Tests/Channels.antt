-- ===== src/Tests/Channels.antt =====
-- The theorems on claims, forwarding, reloads and exclusive places at concrete inputs.
use async_queue_go.Prelude.{
  ◌≤◌, ◌+◌, length, ℕ, ◌≡◌, refl, none, some, List, [], ◌∷◌, arith, str_eq, if◌then◌else◌,
}
use async_queue_go.Prelude.Int.{ℤ, pos}
use async_queue_go.Redis.Keyspace.{Keyspace, count, zcount}
use async_queue_go.Redis.Server.{keyspace}
use async_queue_go.Redis.Agreement.{IsRedis-keyspace}
use async_queue_go.Queue.Keys.{new_keys, message}
use async_queue_go.Queue.Lua.Commit.{to_waiting, push, fail, requeue}
use async_queue_go.Queue.Lua.Move.{pop}
use async_queue_go.Queue.State.{observe}
use async_queue_go.Queue.State.Claim.{pop_spec, pop_refines}
use async_queue_go.Queue.State.Fifo.{Among, pops, claimed_in_turn}
use async_queue_go.Queue.RedisDriver.{forward_messages}
use async_queue_go.Queue.RedisDriver.Forwarding.{forward_messages_spec, forward_messages_refines}
use async_queue_go.Queue.State.Reload.{Source}
use async_queue_go.Queue.State.Counts.{IsExclusive}
use async_queue_go.Queue.State.Exclusive.{
  here, next, pushed, popped, Reaches-IsExclusive, Doubled, late_commit_duplicates,
}
use async_queue_go.Queue.RedisDriver.{reload}
use async_queue_go.Queue.RedisDriver.Reloading.{reload_ends, reload_stops_at_stale}
use async_queue_go.Tests.Fixtures.{empty, cjson, libraries}

-- Something in every bucket; the text of m6 is broken.
abbrev busy : Keyspace
busy = record empty {
  lists = λ k.
      if str_eq k "{q}:waiting"
      then "m2" ∷ "m1" ∷ []
      else if str_eq k "{q}:timeout"
      then "m6" ∷ []
      else [];
  zsets = λ k.
      if str_eq k "{q}:delayed"
      then ("m3", pos 50) ∷ []
      else if str_eq k "{q}:reserved"
      then ("m4", pos 55) ∷ []
      else [];
  texts = λ k.
      if str_eq k "{q}:message:m1"
      then some "text"
      else if str_eq k "{q}:message:m2"
      then some "text"
      else if str_eq k "{q}:message:m3"
      then some "text"
      else if str_eq k "{q}:message:m4"
      then some "text"
      else if str_eq k "{q}:message:m6"
      then some "broken"
      else none;
}

pop_refines_example :
    let k = new_keys "q" in
    let (claimed, db') =
      pop keyspace cjson k.waiting k.reserved k.message_prefix (pos 60) (pos 240) busy in
    (claimed, observe "q" db') ≡ pop_spec cjson (pos 60) (pos 240) (observe "q" busy)
pop_refines_example = pop_refines keyspace IsRedis-keyspace cjson "q" (pos 60) (pos 240) busy

abbrev times : List (ℤ × ℤ)
times = (pos 60, pos 240) ∷ (pos 61, pos 241) ∷ []

claimed_in_turn_example : Among (some "m2") (pops keyspace cjson "q" times busy).0
unfolding observe new_keys message count
claimed_in_turn_example =
    claimed_in_turn keyspace IsRedis-keyspace cjson "q" "m2" ("m1" ∷ []) [] times busy
      (record { queue = refl; readable = refl; apart = refl }) (omega arith)

forward_messages_refines_example :
    let (reply, db') = forward_messages keyspace libraries (pos 60) "q" busy in
    (reply, observe "q" db') ≡ forward_messages_spec cjson (pos 60) (observe "q" busy)
forward_messages_refines_example =
    forward_messages_refines keyspace IsRedis-keyspace libraries (pos 60) "q" busy (λ A m d. refl)

reload_ends_example :
    (n : ℕ) × (db' : Keyspace) × (reload keyspace libraries (pos 60) "q" 2 "timeout" busy
      ≡ (some (n, none), db'))
    × (n + length (observe "q" db').timeout ≤ length (observe "q" busy).timeout)
unfolding observe new_keys
reload_ends_example =
    reload_ends keyspace IsRedis-keyspace libraries (pos 60) "q" Source.timeout 2 busy
      (λ A m d. refl) (omega arith)

reload_stops_at_stale_example :
    (db' : Keyspace) × (reload keyspace libraries (pos 60) "q" 1 "timeout" busy
      ≡ (some (0, none), db'))
    × ((observe "q" db').timeout ≡ [])
unfolding observe new_keys message
reload_stops_at_stale_example =
    reload_stops_at_stale keyspace IsRedis-keyspace libraries (pos 60) "q" 0 busy (λ A m d. refl)
      (refl, tt)

abbrev after_push : Keyspace
after_push =
    let k = new_keys "q" in
    (push keyspace k.waiting k.delayed (message k "m1") "m1" "text" to_waiting (pos 0) (pos 0)
      empty).1

abbrev after_pop : Keyspace
after_pop =
    let k = new_keys "q" in
    (pop keyspace cjson k.waiting k.reserved k.message_prefix (pos 60) (pos 240) after_push).1

Reaches-IsExclusive_example : IsExclusive (observe "q" after_pop)
unfolding observe count zcount
Reaches-IsExclusive_example =
    Reaches-IsExclusive keyspace cjson IsRedis-keyspace "q" {db = empty} {db' = after_pop}
      (λ j. omega arith)
      (next {db1 = after_push}
        (next {db1 = empty} here (pushed to_waiting (pos 0) (pos 0) "m1" "text" refl refl))
        (popped (pos 60) (pos 240) refl))

-- m4 has run out.
abbrev expired : Keyspace
expired = record empty {
  lists = λ k. if str_eq k "{q}:timeout" then "m4" ∷ [] else [];
  texts = λ k. if str_eq k "{q}:message:m4" then some "text" else none;
}

late_commit_duplicates_example :
    let k = new_keys "q" in
    Doubled "m4"
      (λ o. o.waiting)
      (observe "q" expired)
      (observe "q"
        (requeue keyspace cjson k.reserved k.waiting (message k "m4") "m4" (pos 60) expired).1)
    × Doubled "m4"
        (λ o. o.failed)
        (observe "q" expired)
        (observe "q"
          (fail keyspace cjson k.reserved k.failed (message k "m4") "m4" (pos 60) expired).1)
unfolding observe new_keys message count zcount
late_commit_duplicates_example =
    late_commit_duplicates keyspace cjson IsRedis-keyspace "q" "m4" (pos 60) expired refl refl refl

-- ===== src/Tests/Reservation.antt =====
-- The theorems on claimed messages at concrete inputs.
use mathlib.Core.Path.{subst}
use async_queue_go.Prelude.{
  ℕ, ◌≡◌, ◌≢◌, refl, none, some, [], ◌∷◌, arith, eq_iff, str_eq, Bool-cases, inl, inr, ◌≤◌,
  if◌then◌else◌,
}
use async_queue_go.Prelude.Int.{pos}
use async_queue_go.Redis.Keyspace.{Keyspace, count, zcount, score, unsnoc}
use async_queue_go.Redis.Program.{◌>>=◌}
use async_queue_go.Redis.Server.{keyspace}
use async_queue_go.Redis.Agreement.{IsRedis-keyspace}
use async_queue_go.Queue.Keys.{new_keys, message}
use async_queue_go.Queue.Lua.Move.{pop, pop_loop, move_timeout}
use async_queue_go.Queue.RedisDriver.{Libraries, reload, forward_messages}
use async_queue_go.Queue.RedisDriver.Reloading.Recovery.{abandoned_returns}
use async_queue_go.Queue.State.{observe}
use async_queue_go.Queue.State.Counts.{IsExclusive, total}
use async_queue_go.Queue.State.Exclusive.{Reaches, here, next, expired, popped}
use async_queue_go.Queue.State.Lease.{IsLeased}
use async_queue_go.Queue.State.Recovery.{IsBack}
use async_queue_go.Queue.State.Reservation.{claim_lasts}
use async_queue_go.Queue.State.Place.{Place, Moved}
use async_queue_go.Queue.State.Matrix.{moves_along_matrix}
use async_queue_go.Tests.Fixtures.{empty, libraries, one_reserved}
use async_queue_go.Tests.Statuses.{statuses, statuses-IsCjson}
use async_queue_go.Tests.Lossless.{ran_out}

abbrev two_waiting : Keyspace
two_waiting = record empty {
  lists = λ k. if str_eq k "{q}:waiting" then "m2" ∷ "m1" ∷ [] else [];
  texts = λ k.
      if str_eq k "{q}:message:m1"
      then some "waiting"
      else if str_eq k "{q}:message:m2"
      then some "waiting"
      else none;
}

-- m1 is claimed, the forwarder runs before the deadline, and m2 is claimed.
abbrev claimed : Keyspace
claimed =
    let k = new_keys "q" in
    (pop keyspace statuses k.waiting k.reserved k.message_prefix (pos 60) (pos 90) two_waiting).1

abbrev looked_at : Keyspace
looked_at =
    let k = new_keys "q" in
    (move_timeout keyspace k.reserved k.timeout k.message_prefix (pos 70) claimed).1

abbrev both_claimed : Keyspace
both_claimed =
    let k = new_keys "q" in
    (pop keyspace statuses k.waiting k.reserved k.message_prefix (pos 75) (pos 105) looked_at).1

abbrev meanwhile : Reaches keyspace statuses IsRedis-keyspace "q" claimed both_claimed
meanwhile =
    next {db1 = looked_at} (next {db1 = claimed} here (expired (pos 70) refl))
      (popped (pos 75) (pos 105) refl)

two_waiting-IsExclusive : IsExclusive (observe "q" two_waiting)
unfolding observe count zcount new_keys
two_waiting-IsExclusive j = elim (Bool-cases (str_eq "m1" j)) [
  | inl e ↦ subst (λ x. total x (observe "q" two_waiting) ≤ 1) ((eq_iff "m1" j).0 e) (omega arith)
  | inr e ↦ ground (arith, e)
]

claim_lasts_example :
    let k = new_keys "q" in
    IsLeased "m1" (pos 90) (observe "q" both_claimed)
    × ((pop keyspace statuses k.waiting k.reserved k.message_prefix
          (pos 80)
          (pos 110)
          both_claimed).0
        ≢ some "m1")
unfolding pop ◌>>=◌ pop_loop unsnoc new_keys
claim_lasts_example =
    claim_lasts keyspace statuses IsRedis-keyspace "q" "m1" (pos 60) (pos 90) two_waiting
      {db' = both_claimed} two_waiting-IsExclusive refl meanwhile ((tt, refl), tt) (pos 80)
      (pos 110)

moves_along_matrix_example :
    Moved "m1" (Place.reserved, Place.timeout) (observe "q" one_reserved) (observe "q" ran_out)
    × IsExclusive (observe "q" ran_out)
unfolding observe count zcount new_keys message
moves_along_matrix_example =
    moves_along_matrix keyspace statuses IsRedis-keyspace "q" "m1" {db = one_reserved}
      {db' = ran_out} (expired (pos 60) refl) refl (λ j. ground arith)

abbrev reading : Libraries keyspace
reading = record libraries { cjson = statuses }

abandoned_returns_example :
    let db1 = (forward_messages keyspace reading (pos 60) "q" one_reserved).1 in
    (n : ℕ) × (db2 : Keyspace) × (reload keyspace reading (pos 70) "q" 101 "timeout" db1
      ≡ (some (n, none), db2))
    × IsBack statuses "m1" (observe "q" db2)
unfolding observe score new_keys message
abandoned_returns_example =
    abandoned_returns keyspace IsRedis-keyspace reading (pos 60) (pos 70) (pos 50) "q" "m1" 101
      one_reserved statuses-IsCjson (λ A m d. refl) refl refl refl (omega arith) (omega arith)

-- ===== src/Queue/Consumer/Deliveries.antt =====
-- How often a message is handed to a handler that always fails, before it is moved to `failed`.
use async_queue_go.Prelude.{
  ℕ, zero, suc, ◌+◌, ◌-◌, ◌≤◌, ◌<◌, String, ◌≡◌, ap, Bool, true, false, List, Option, none, some,
  arith, if◌then◌else◌,
}
use mathlib.Core.Option
use native.Mathlib.Decide.{dec_lt}
use async_queue_go.Prelude.Int.{ℤ, pos}
use async_queue_go.Core.Message.{Message, attempts_allowed, set_status}
use async_queue_go.Queue.RedisDriver.{retried_message}
use async_queue_go.Queue.Consumer.{
  Driver, answered, Stats, Consumer, error, handle_error, dispatch, recover, handle_one,
}

-- One stored message, and whether it was moved to `failed`.
pub record Stored : Type 0 where
  pub message : Message
  pub moved : Bool

-- The part of the Redis driver that matters here: `Retry` stores `retried_message`.
abbrev pub storing : ℤ → Driver Stored
storing now = record {
  ack = λ id d. (none, d);
  requeue = λ id d. (none, d);
  drop = λ id d. (none, d);
  fail = λ id d. (none, record d { moved = true });
  retry = λ id delay d. (answered true, record d { message = retried_message delay now d.message });
}

abbrev pub idle : Stats
idle = record {
  processed = 0;
  acked = 0;
  retried = 0;
  requeued = 0;
  failed = 0;
  dropped = 0;
  errors = 0;
}

-- One delivery of the stored message.
pub deliver : Consumer → String → ℤ → Stored → Stored
deliver c id now d =
    (handle_one (storing now) c id now
      (record { driver = d; stats = idle; message = d.message })).1.driver

-- The number of deliveries until the message is in `failed`; `none` if that takes more than the fuel.
unfoldable pub deliveries : ℕ → Consumer → String → ℤ → Stored → Option ℕ
deliveries zero c id now d = none
deliveries (suc fuel) c id now d =
    let next = deliver c id now d in
    let rest = deliveries fuel c id now next in if next.moved then some 1 else Option.map suc rest

-- A consumer whose handler fails on every message, and whose hooks return.
abbrev pub failing : List ℤ → Consumer
failing delays = record {
  retry_delays = delays;
  hook_panics = λ h m. false;
  handler = λ m. (error, m);
}

module _ (delays : List ℤ) (id : String) (now : ℤ) where
  deliver_last :
      (d : Stored) (m : ℕ)
      → d.message.attempts ≡ pos m
      → d.message.max_attempts ≡ pos m
      → (deliver (failing delays) id now d).moved ≡ true
  unfolding deliver handle_one dispatch recover handle_error attempts_allowed set_status
  deliver_last d m a x = ground arith

  deliver_again :
      (d : Stored) (a m : ℕ)
      → a < m
      → m < 0x8000000000000000
      → d.moved ≡ false
      → d.message.attempts ≡ pos a
      → d.message.max_attempts ≡ pos m
      → ((deliver (failing delays) id now d).moved ≡ false)
        × ((deliver (failing delays) id now d).message.attempts ≡ pos (suc a))
        × ((deliver (failing delays) id now d).message.max_attempts ≡ pos m)
  unfolding deliver handle_one dispatch recover handle_error attempts_allowed set_status
      retried_message
  deliver_again d a m lt range o at max = ground arith

  -- A message with `a` attempts behind it, within a 64-bit limit of `m`, is delivered m - a + 1 times
  -- before it is moved to `failed`, if every delivery fails and the driver never does: a fresh one,
  -- once more than its limit says. Any fuel above m - a is enough.
  pub deliveries-failing :
      (fuel : ℕ) (d : Stored) (a m : ℕ)
      → m - a < fuel
      → a ≤ m
      → m < 0x8000000000000000
      → d.moved ≡ false
      → d.message.attempts ≡ pos a
      → d.message.max_attempts ≡ pos m
      → deliveries fuel (failing delays) id now d ≡ some (m - a + 1)
  unfolding deliveries
  deliveries-failing zero d a m f le range o at max = elim f [ ]
  deliveries-failing (suc fuel) d a m f le range o at max = elim (dec_lt a m) [
    | yes lt ↦
        let (o', at', max') = deliver_again d a m lt range o at max in
        simp o' (
          rw
            (deliveries-failing fuel (deliver (failing delays) id now d) (suc a) m (omega arith) lt
              range o' at' max')
            (ap some (omega arith)))
    | no ge ↦ rw (deliver_last d m (rw at (ap pos (omega arith))) max) (ap some (omega arith))
  ]

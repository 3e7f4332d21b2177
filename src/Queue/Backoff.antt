-- ===== src/Queue/Backoff.antt =====
-- pkg/queue/backoff.go. Durations are nanoseconds in Go's `int64`; a method on `*backoff` returns
-- the new record. `newBackoff` never returns nil, so the nil receivers are left out.
use Prim.Native.Nat.{min, max}
use native.Mathlib.Nat.{pow-suc}
use async_queue_go.Prelude.{ℕ, zero, suc, ◌*◌, ◌^◌, ◌≤◌, ◌<◌, ◌≡◌, ap, ◌||◌, arith, if◌then◌else◌}
use async_queue_go.Prelude.Int.{ℤ, pos, ◌+ℤ◌, ◌≤ℤ◌, leb_ℤ, ltb_ℤ, int64}

pub record Backoff : Type 0 where
  pub initial : ℤ
  pub max : ℤ
  pub current : ℤ

abbrev pub second : ℤ
second = pos 1_000_000_000

unfoldable pub new_backoff : ℤ → ℤ → Backoff
new_backoff initial max =
    let initial' = if leb_ℤ initial (pos 0) then second else initial in
    let max' = if leb_ℤ max (pos 0) || ltb_ℤ max initial' then initial' else max in
    record { initial = initial'; max = max'; current = initial' }

unfoldable pub advance : Backoff → Backoff
advance b =
    let next = int64 (b.current +ℤ b.current) in
    if leb_ℤ b.current (pos 0)
    then record b { current = b.max }
    else record b { current = if ltb_ℤ b.max next then b.max else next }

unfoldable pub reset : Backoff → Backoff
reset b = record b { current = b.initial }

unfoldable pub advances : ℕ → Backoff → Backoff
advances zero b = b
advances (suc n) b = advance (advances n b)

-- What the loops rely on: the limits are positive and in order, and no wait passes the maximum.
pub record IsBounded (b : Backoff) : Type 0 where
  pub starts : pos 1 ≤ℤ b.initial
  pub ordered : b.initial ≤ℤ b.max
  pub capped : b.current ≤ℤ b.max

new_backoff-IsBounded : (i m : ℤ) → IsBounded (new_backoff i m)
unfolding new_backoff
new_backoff-IsBounded i m = ground arith

advance-IsBounded : (b : Backoff) → IsBounded b → IsBounded (advance b)
unfolding advance
advance-IsBounded b h = ground arith

-- After any number of retries no wait passes the maximum, which is positive, for every pair of
-- 64-bit durations given to the constructor, doublings that wrap around included.
pub advances-IsBounded : (n : ℕ) (i m : ℤ) → IsBounded (advances n (new_backoff i m))
unfolding advances
advances-IsBounded zero i m = new_backoff-IsBounded i m
advances-IsBounded (suc n) i m =
    advance-IsBounded (advances n (new_backoff i m)) (advances-IsBounded n i m)

double_pow : (i n : ℕ) → i * 2 ^ suc n ≡ 2 * (i * 2 ^ n)
double_pow i n = rw pow-suc (omega arith)

advance-min :
    (i m k : ℕ)
    → 0 < k
    → m < 0x4000000000000000
    → advance (record { initial = pos i; max = pos m; current = pos (min k m) })
      ≡ record { initial = pos i; max = pos m; current = pos (min (2 * k) m) }
unfolding advance
advance-min i m k k0 w = ground arith

scaled_pos : (i n : ℕ) → 0 < i → 0 < i * 2 ^ n
scaled_pos i zero h = omega arith
scaled_pos i (suc n) h = omega (arith, double_pow i n, scaled_pos i n h)

advances-min :
    (n i m : ℕ)
    → 0 < i
    → i ≤ m
    → m < 0x4000000000000000
    → advances n (new_backoff (pos i) (pos m))
      ≡ record { initial = pos i; max = pos m; current = pos (min (i * 2 ^ n) m) }
unfolding advances new_backoff
advances-min zero i m h o w = ground arith
advances-min (suc n) i m h o w =
    rw (advances-min n i m h o w, double_pow i n) (advance-min i m (i * 2 ^ n) (scaled_pos i n h) w)

-- The schedule in closed form: the n-th wait is the initial one doubled n times, cut at the maximum,
-- if the two are in order and positive and the maximum is below 2^62 ns (146 years).
pub current-advances :
    (n i m : ℕ)
    → 0 < i
    → i ≤ m
    → m < 0x4000000000000000
    → (advances n (new_backoff (pos i) (pos m))).current ≡ pos (min (i * 2 ^ n) m)
unfolding advances
current-advances n i m h o w = ap (λ (b : Backoff). b.current) (advances-min n i m h o w)

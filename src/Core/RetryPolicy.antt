-- ===== src/Core/RetryPolicy.antt =====
-- pkg/core/retry_policy.go
use Prim.Native.Nat.{min, max}
use async_queue_go.Prelude.{
  ℕ, zero, suc, ◌-◌, ◌<◌, ◌≡◌, refl, List, [], ◌∷◌, arith, leb, ◌==◌, if◌then◌else◌, length, get_or,
}
use async_queue_go.Prelude.Int.{ℤ, pos, pos_part, leb_ℤ}

-- The delay before the attempt that follows; `attempts - 1` is an index, so it is a number here.
unfoldable pub retry_seconds : List ℤ → ℤ → ℤ
retry_seconds delays attempts =
    let attempts' = if leb_ℤ attempts (pos 0) then pos 1 else attempts in
    let idx = pos_part attempts' - 1 in
    if length delays == 0
    then pos 10
    else if leb (length delays) idx
    then get_or delays (length delays - 1) (pos 0)
    else get_or delays idx (pos 0)

get_or_default : (xs : List ℤ) (i : ℕ) (d e : ℤ) → i < length xs → get_or xs i d ≡ get_or xs i e
get_or_default [] i d e h = elim h [ ]
get_or_default (x ∷ xs) zero d e h = refl
get_or_default (x ∷ xs) (suc i) d e h = get_or_default xs i d e (omega arith)

-- The policy in closed form: the entry at the attempt's number, counted from one, where numbers
-- outside the list stand for its first or its last entry; ten seconds if the list is empty.
pub retry_seconds-clamp :
    (delays : List ℤ) (attempts : ℤ)
    → retry_seconds delays attempts
      ≡ get_or delays (min (max 1 (pos_part attempts) - 1) (length delays - 1)) (pos 10)
unfolding retry_seconds
retry_seconds-clamp [] attempts = refl
retry_seconds-clamp (d ∷ ds) attempts = ground (
  arith,
  get_or_default (d ∷ ds) (length ds) (pos 0) (pos 10),
  get_or_default (d ∷ ds) (pos_part attempts - 1) (pos 0) (pos 10),
)

-- ===== src/Redis/Keyspace.antt =====
-- What a client can observe of a Redis database, and the documented effect of each command that
-- pkg/queue uses. The program uses each key with the commands of one type only, so lists, sorted
-- sets, texts and counters are kept apart and the WRONGTYPE error is left out.
use Prim.Native.Nat.{Ordering}
use Prim.Native.String.{compare}
use async_queue_go.Prelude.{
  ℕ, suc, ◌+◌, ◌/◌, String, Bool, true, false, ◌||◌, ◌&&◌, List, [], ◌∷◌, Option, none, some,
  if◌then◌else◌, str_eq,
}
use async_queue_go.Prelude.Int.{ℤ, leb_ℤ, ltb_ℤ}

pub record Keyspace : Type 0 where
  -- from the left end to the right end
  pub lists : String → List String
  -- members with their scores, in the server's order
  pub zsets : String → List (String × ℤ)
  pub texts : String → Option String
  -- keys that hold a decimal number
  pub counters : String → Option ℕ
  -- time to live in milliseconds, of the keys that have one
  pub expiry : String → Option ℕ

abbrev pub update {ℓ} : {A : Type ℓ} → (String → A) → String → A → String → A
update f k v j = if str_eq k j then v else f j

-- Every occurrence of a value.
unfoldable pub remove : String → List String → List String
remove x [] = []
remove x (y ∷ l) = let rest = remove x l in if str_eq y x then rest else y ∷ rest

unfoldable pub count : String → List String → ℕ
count x [] = 0
count x (y ∷ l) = let rest = count x l in if str_eq y x then suc rest else rest

-- Where a value stands first.
unfoldable pub index : String → List String → Option ℕ
index x [] = none
index x (y ∷ l) =
    if str_eq y x then some 0 else (elim (index x l) [ none ↦ none | some i ↦ some (suc i) ])

-- The last value and the list before it.
unfoldable pub unsnoc : List String → Option (List String × String)
unsnoc [] = none
unsnoc (x ∷ l) = elim (unsnoc l) [ none ↦ some ([], x) | some (i, y) ↦ some (x ∷ i, y) ]

unfoldable pub zremove : String → List (String × ℤ) → List (String × ℤ)
zremove x [] = []
zremove x ((y, s) ∷ l) = let rest = zremove x l in if str_eq y x then rest else (y, s) ∷ rest

unfoldable pub zcount : String → List (String × ℤ) → ℕ
zcount x [] = 0
zcount x ((y, s) ∷ l) = let rest = zcount x l in if str_eq y x then suc rest else rest

unfoldable pub score : String → List (String × ℤ) → Option ℤ
score x [] = none
score x ((y, s) ∷ l) = if str_eq y x then some s else score x l

abbrev is_le : Ordering → Bool
is_le Ordering.gt = false
is_le _ = true

-- By score, then by the bytes of the member.
abbrev before : String → ℤ → String → ℤ → Bool
before y t x s = ltb_ℤ t s || (leb_ℤ t s && is_le (compare y x))

unfoldable pub zinsert : String → ℤ → List (String × ℤ) → List (String × ℤ)
zinsert x s [] = (x, s) ∷ []
zinsert x s ((y, t) ∷ l) =
    let rest = zinsert x s l in if before y t x s then (y, t) ∷ rest else (x, s) ∷ (y, t) ∷ l

-- Members whose score is at most `m`.
unfoldable pub due : ℤ → List (String × ℤ) → List String
due m [] = []
due m ((x, s) ∷ l) = let rest = due m l in if leb_ℤ s m then x ∷ rest else rest

abbrev pub is_some {ℓ} : {A : Type ℓ} → Option A → Bool
is_some none = false
is_some (some a) = true

-- TTL reports seconds, to the nearest one.
abbrev pub seconds : ℕ → ℕ
seconds ms = (ms + 500) / 1000

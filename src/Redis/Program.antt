-- ===== src/Redis/Program.antt =====
-- A sequence of commands on a database: a Lua script, or calls that the client makes one by one.
use async_queue_go.Prelude.{ℕ, Bool, true, false, Option, none, some, if◌then◌else◌}

abbrev pub Program : Type 0 → Type 0 → Type 0
Program D A = D → A × D

module _ {D : Type 0} where
  unfoldable pub pure : {A : Type 0} → A → Program D A
  pure a d = (a, d)

  infixl 5 ◌>>=◌ ◌>>◌
  -- Opening this opens `pure` too.
  unfoldable pub ◌>>=◌ : {A B : Type 0} → Program D A → (A → Program D B) → Program D B
  unfolding pure
  ◌>>=◌ m f d = f (m d).0 (m d).1

  abbrev pub ◌>>◌ : {A B : Type 0} → Program D A → Program D B → Program D B
  m >> k = m >>= λ _. k

  abbrev pub when : Bool → Program D (Unit {0}) → Program D (Unit {0})
  when b m = if b then m else pure tt

-- What redis.call hands to Lua: a nil reply of the server becomes the boolean false.
pub data LuaValue : Type 0 where
  nil : LuaValue
  boolean : Bool → LuaValue
  number : ℕ → LuaValue

abbrev pub to_lua : Option ℕ → LuaValue
to_lua none = boolean false
to_lua (some n) = number n

-- `v ~= nil`
abbrev pub not_nil : LuaValue → Bool
not_nil nil = false
not_nil _ = true

-- A match on an option, as a call.
abbrev pub on {ℓ κ} : {A : Type ℓ} {B : Type κ} → Option A → B → (A → B) → B
on none b f = b
on (some a) b f = f a

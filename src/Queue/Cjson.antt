-- ===== src/Queue/Cjson.antt =====
-- The JSON library of Redis' Lua interpreter, as the scripts of pkg/queue/lua.go use it. The status
-- texts of the scripts are the constants of pkg/core/message.go.
use async_queue_go.Prelude.{String, ◌≡◌, Option, some}
use async_queue_go.Prelude.Int.{ℤ}
use async_queue_go.Core.Message.{Status}

pub record Cjson : Type 1 where
  pub Table : Type 0
  -- pcall(cjson.decode, raw), when it succeeds with a table
  pub decode : String → Option Table
  -- taken to succeed; it raises an error for a number out of range, which aborts the script
  pub encode : Table → String
  -- msg["status"], when it is a text
  pub status : Table → Option Status
  pub set_status : Status → Table → Table
  pub set_updated_at : ℤ → Table → Table

-- A status that one of the constants names, the ones that the scripts set.
abbrev pub IsNamed : Status → Type 0
IsNamed (Status.other s) = ⊥
IsNamed _ = Unit {0}

-- A table that was encoded can be decoded again and keeps its status (other fields may lose
-- precision on the way), and a named status that was set is read
-- back.
pub record IsCjson (c : Cjson) : Type 0 where
  pub reread :
      (t : c.Table)
      → (t' : c.Table) × (c.decode (c.encode t) ≡ some t') × (c.status t' ≡ c.status t)
  pub status-set : (s : Status) (t : c.Table) → IsNamed s → c.status (c.set_status s t) ≡ some s
  pub status-set_updated_at : (n : ℤ) (t : c.Table) → c.status (c.set_updated_at n t) ≡ c.status t

-- What a script writes for a message that it moves.
unfoldable pub stamped : (c : Cjson) → Status → ℤ → c.Table → String
stamped c s now t = c.encode (c.set_updated_at now (c.set_status s t))

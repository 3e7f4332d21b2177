-- ===== src/Queue/State.antt =====
-- The abstract state of one channel, its five buckets and the stored messages, and how it is read
-- off a keyspace. The specification of each operation is a function on it.
pub mod Marking
pub mod Numbering
pub mod Commit
pub mod Statuses
pub mod Enqueue
pub mod Retry
pub mod Observe
pub mod Claim
pub mod Forward
pub mod Cancel
pub mod Reload
pub mod Fifo
pub mod Counts
pub mod Exclusive
pub mod Alive
pub mod Lossless
pub mod Lease
pub mod Reservation
pub mod Recovery
pub mod Place
pub mod Matrix
use async_queue_go.Prelude.{
  ℕ, String, Bool, false, List, [], ◌∷◌, Option, none, some, if◌then◌else◌, str_eq,
}
use async_queue_go.Prelude.Int.{ℤ}
use async_queue_go.Redis.Keyspace.{Keyspace, is_some}
use async_queue_go.Redis.Program.{on}
use async_queue_go.Core.Message.{Status}
use async_queue_go.Queue.Keys.{Keys, new_keys, message}
use async_queue_go.Queue.Cjson.{Cjson, stamped}

pub record Channel : Type 0 where
  -- dispatched from the right end
  pub waiting : List String
  pub reserved : List (String × ℤ)
  pub delayed : List (String × ℤ)
  pub timeout : List String
  pub failed : List String
  pub entity : String → Option String

unfoldable pub observe : String → Keyspace → Channel
observe name d =
    let k = new_keys name in
    record {
      waiting = d.lists k.waiting;
      reserved = d.zsets k.reserved;
      delayed = d.zsets k.delayed;
      timeout = d.lists k.timeout;
      failed = d.lists k.failed;
      entity = λ id. d.texts (message k id);
    }

module _ (c : Cjson) where
  -- The stored text is there, and decodes to a table.
  abbrev pub is_readable : Option String → Bool
  is_readable raw = on raw false λ text. is_some (c.decode text)

  -- The text of a message whose status is set; an unreadable text stays as it is.
  abbrev pub restamp : Status → ℤ → Option String → Option String
  restamp status now raw =
      on raw none λ text. on (c.decode text) (some text) λ msg. some (stamped c status now msg)

  abbrev pub mark_entity : Status → ℤ → String → (String → Option String) → String → Option String
  mark_entity status now id entity j =
      if str_eq id j then restamp status now (entity id) else entity j

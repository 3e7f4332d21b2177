-- ===== src/Service/Facade.antt =====
-- asyncqueue/asyncqueue.go: the queue that producers hold, over the operations of a driver. Log lines
-- are left out, and the receiver is not nil.
use async_queue_go.Prelude.{ℕ, String, Bool, Option, none, some, List, if◌then◌else◌, str_eq}
use async_queue_go.Prelude.Int.{ℤ, pos, ltb_ℤ}
use async_queue_go.Core.Message.{Message, Status, set_status, at_least_one}
use async_queue_go.Queue.RedisDriver.{
  Reply, ok, err, Error, id_empty, Call, Info, ◌>>=◌, return, throw, Libraries,
}
use async_queue_go.Queue.RedisDriver
use async_queue_go.Redis.Server.{Server}
use async_queue_go.Service.Options.{QueueOption, QueueOptions, apply_all, default_queue_options}

-- What the facade uses of `queue.Driver`, at the queue's channel.
pub record Backend (D : Type 0) : Type 0 where
  pub ping : Call D (Unit {0})
  pub push : Message → ℤ → ℤ → Call D Message
  pub get : String → Call D Message
  pub cancel : String → Call D Bool
  pub reload : String → D → Option (ℕ × Option Error) × D
  pub flush : String → Call D (Unit {0})
  pub info : Call D Info

pub data Refusal : Type 0 where
  driver_nil channel_empty task_nil marshal_failed : Refusal
  backend : Error → Refusal

pub data Outcome (A : Type 0) : Type 0 where
  done : A → Outcome A
  refused : Refusal → Outcome A

abbrev pub from_reply : {A : Type 0} → Reply A → Outcome A
from_reply (ok a) = done a
from_reply (err e) = refused (backend e)

-- The message as it is handed to the driver.
unfoldable pub prepared : ℤ → ℤ → Message → Message
prepared delay now m =
    set_status (if ltb_ℤ (pos 0) delay then Status.delayed else Status.waiting) now
      (record m { max_attempts = at_least_one m.max_attempts; id = "" })

module _ {D : Type 0} (b : Backend D) where
  abbrev pinged : QueueOptions → Reply (Unit {0}) × D → Outcome QueueOptions × D
  pinged o (ok _, d) = (done o, d)
  pinged o (err e, d) = (refused (backend e), d)

  -- `NewAsyncQueue`: the options, once the driver answers a ping.
  unfoldable pub new_async_queue : String → List QueueOption → D → Outcome QueueOptions × D
  new_async_queue channel options d =
      if str_eq channel ""
      then (refused channel_empty, d)
      else pinged (apply_all options (default_queue_options channel)) (b.ping d)

  unfoldable pub push_message : QueueOptions → ℤ → Message → ℤ → Call D String
  push_message o now m delay = do
    stored ← b.push (prepared delay now m) delay o.message_ttl
    return stored.id

  -- `task` is the JSON text of the task, `none` if it cannot be marshalled.
  unfoldable pub push_task : QueueOptions → ℤ → Option String → ℤ → D → Outcome String × D
  push_task o now none delay d = (refused marshal_failed, d)
  push_task o now (some text) delay d =
      let (r, d') =
        push_message o now
          (record {
            id = "";
            payload = text;
            attempts = pos 0;
            max_attempts = o.max_attempts;
            status = Status.other "";
            created_at = pos 0;
            updated_at = pos 0;
          })
          delay d in
      (from_reply r, d')

  unfoldable pub get_message : String → Call D Message
  get_message id = if str_eq id "" then throw id_empty else b.get id

  unfoldable pub cancel : String → Call D Bool
  cancel id = if str_eq id "" then throw id_empty else b.cancel id

  unfoldable pub info : Call D Info
  info = b.info

  unfoldable pub reload : String → D → Option (ℕ × Option Error) × D
  reload queue = b.reload queue

  unfoldable pub flush : String → Call D (Unit {0})
  flush queue = b.flush queue

-- The Redis driver at a channel. A ping changes nothing. The loop of `Reload` is given fuel.
abbrev pub redis : (s : Server) → Libraries s → ℤ → String → ℕ → Backend s.Db
redis s l now channel fuel = record {
  ping = RedisDriver.ping s l;
  push = RedisDriver.push s l now channel;
  get = RedisDriver.get s l now channel;
  cancel = RedisDriver.cancel s l now channel;
  reload = RedisDriver.reload s l now channel fuel;
  flush = RedisDriver.flush s l now channel;
  info = RedisDriver.info s l now channel;
}

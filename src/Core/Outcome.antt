-- ===== src/Core/Outcome.antt =====
-- pkg/core/types.go. A handler's `Result` is a string type: `other` holds a text that no constant
-- names.
use Prim.Native.String.{◌++◌}
use async_queue_go.Prelude.{String}

pub data Result : Type 0 where
  ack retry requeue drop : Result
  other : String → Result

pub to_string : Result → String
to_string ack = "ACK"
to_string retry = "RETRY"
to_string requeue = "REQUEUE"
to_string drop = "DROP"
to_string (other s) = "UNKNOWN(" ++ s ++ ")"

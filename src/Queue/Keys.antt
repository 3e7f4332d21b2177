-- ===== src/Queue/Keys.antt =====
-- pkg/queue/keys.go
pub mod Distinct
use Prim.Native.String.{◌++◌}
use async_queue_go.Prelude.{String, Option, none, some, if◌then◌else◌, str_eq}

pub record Keys : Type 0 where
  pub channel : String
  pub waiting : String
  pub reserved : String
  pub timeout : String
  pub delayed : String
  pub failed : String
  pub message_prefix : String
  pub sequence_key : String
  pub sequence_epoch : String

-- fmt.Sprintf("{%s}:name", channel)
pub bucket : String → String → String
bucket channel name = "{" ++ (channel ++ ("}:" ++ name))

unfoldable pub new_keys : String → Keys
unfolding bucket
new_keys channel = record {
  channel = channel;
  waiting = bucket channel "waiting";
  reserved = bucket channel "reserved";
  timeout = bucket channel "timeout";
  delayed = bucket channel "delayed";
  failed = bucket channel "failed";
  message_prefix = bucket channel "message:";
  sequence_key = bucket channel "msg_seq";
  sequence_epoch = bucket channel "msg_seq_epoch";
}

-- `none` is the error "queue ... is not supported".
unfoldable pub get : Keys → String → Option String
get k name =
    if str_eq name "waiting"
    then some k.waiting
    else if str_eq name "reserved"
    then some k.reserved
    else if str_eq name "timeout"
    then some k.timeout
    else if str_eq name "delayed"
    then some k.delayed
    else if str_eq name "failed"
    then some k.failed
    else none

unfoldable pub message : Keys → String → String
message k id = k.message_prefix ++ id

-- ===== src/Tests/Fixtures.antt =====
-- A keyspace, a message and libraries that the examples share.
use async_queue_go.Prelude.{none, some, [], ◌∷◌, str_eq, if◌then◌else◌}
use async_queue_go.Prelude.Int.{pos}
use async_queue_go.Redis.Keyspace.{Keyspace}
use async_queue_go.Redis.Server.{keyspace}
use async_queue_go.Core.Message.{Message, Status, Json}
use async_queue_go.Queue.Cjson.{Cjson}
use async_queue_go.Queue.RedisDriver.{Libraries, client, ok, err}

abbrev pub empty : Keyspace
empty = record {
  lists = λ k. [];
  zsets = λ k. [];
  texts = λ k. none;
  counters = λ k. none;
  expiry = λ k. none;
}

-- A JSON library that keeps the status alone.
abbrev pub cjson : Cjson
cjson = record {
  Table = Status;
  decode = λ raw. if str_eq raw "broken" then none else some Status.waiting;
  encode = λ t. "text";
  status = λ t. some t;
  set_status = λ s t. s;
  set_updated_at = λ n t. t;
}

abbrev pub letter : Message
letter = record {
  id = "m1";
  payload = "{}";
  attempts = pos 0;
  max_attempts = pos 2;
  status = Status.waiting;
  created_at = pos 100;
  updated_at = pos 100;
}

abbrev pub json : Json
json = record { marshal = λ m. some "text"; unmarshal = λ raw. some letter }

-- A client that reaches the server, and one that does not.
abbrev pub libraries : Libraries keyspace
libraries = record {
  client = record { run = λ A m d. (ok (m d).0, (m d).1) };
  cjson = cjson;
  json = json;
  md5 = λ t. t;
  decimal = λ n. "1";
  beside = λ e. none;
}

abbrev pub unreachable : Libraries keyspace
unreachable = record libraries { client = record { run = λ A m d. (err (client 7), d) } }

-- One reserved message.
abbrev pub one_reserved : Keyspace
one_reserved = record empty {
  zsets = λ k. if str_eq k "{q}:reserved" then ("m1", pos 50) ∷ [] else [];
  texts = λ k. if str_eq k "{q}:message:m1" then some "text" else none;
}

-- ===== src/Queue.antt =====
-- pkg/queue
pub mod Backoff
pub mod Keys
pub mod Cjson
pub mod Lua
pub mod State
pub mod Consumer
pub mod Delivery
pub mod Outage
pub mod RedisDriver
pub mod Forwarder

-- ===== src/Service.antt =====
-- asyncqueue: the queue facade and its options, the handler registry, the checks before a start, the
-- server's shutdown timeout, the manager's life cycle, and the server.
pub mod Options
pub mod Facade
pub mod Roundtrip
pub mod Handover
pub mod Startup
pub mod Manager
pub mod Server
pub mod DefaultServer

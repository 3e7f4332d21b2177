-- ===== src/Redis.antt =====
-- The Redis server, which the repository calls and does not contain: an interface (`Server`), what
-- its commands are documented to do on a keyspace (`Keyspace`), and the agreement of the two.
pub mod Keyspace
pub mod Program
pub mod Server
pub mod Agreement

-- ===== src/Queue/Lua.antt =====
-- pkg/queue/lua.go: each script is a program over an arbitrary server and JSON library.
pub mod Commit
pub mod Move
pub mod Manage
pub mod Sequence
pub mod Agreement

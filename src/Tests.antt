-- ===== src/Tests.antt =====
-- The theorems at concrete inputs.
mod Fixtures
mod Scripts
mod Channels
mod Roundtrip
mod Statuses
mod Handling
mod Services
mod Manager
mod Running
mod Handover
mod Lossless
mod Reservation
mod Orders

-- ===== src/Examples.antt =====
-- The example programs (examples/).
pub mod Order

-- ===== src/Usage/Log.antt =====
-- The events that the ledger keeps.
pub mod Same
pub mod Reservations
pub mod Steps
pub mod Kept

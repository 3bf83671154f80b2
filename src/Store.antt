-- ===== src/Store.antt =====
-- The stored timelines of projects.
pub mod Rows
pub mod Service
pub mod Revisions
pub mod Saved
mod Samples

-- ===== src/Editor/History.antt =====
-- The edit history, and what undo, redo and batches do to it.
pub mod Defs
pub mod Undo
pub mod Session
pub mod Replay

-- ===== src/Editor.antt =====
-- The editor: commands, the applier and the history.
pub mod Command
pub mod Assets
pub mod Segments
pub mod Cut
pub mod Replace
pub mod Place
pub mod Apply
pub mod Found
pub mod Located
pub mod SourceBounds
pub mod Playback
pub mod Moves
pub mod Removal
mod Samples
pub mod History

-- ===== src/Render.antt =====
-- The rendering of a timeline: its plan, and the frames that each segment gets.
pub mod Budget
pub mod Compile
pub mod Compiled
pub mod Compiles
mod Samples

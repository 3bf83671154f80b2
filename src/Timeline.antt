-- ===== src/Timeline.antt =====
pub mod Intervals
pub mod Sorting
pub mod Segment
pub mod Valid

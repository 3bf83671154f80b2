-- ===== src/Run.antt =====
-- Pipeline runs: the stages, the storage of runs and the services that move a run.
pub mod Stage
pub mod Graph
pub mod Row
pub mod PipelineRun
pub mod Storage
pub mod Evolution
pub mod Operations
pub mod Service
pub mod ServiceOther
pub mod Commit
pub mod Moves
pub mod Stop
pub mod Conditional
pub mod Back
pub mod Succeeds
pub mod Review
mod Samples

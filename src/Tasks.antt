-- ===== src/Tasks.antt =====
-- Background tasks: the storage that tracks them, and the ownership of runs by tasks.
pub mod Row
pub mod Storage
pub mod Claims
pub mod Broker
pub mod Kept
pub mod Steps
pub mod ClaimSteps
pub mod Sequences
pub mod Fencing
pub mod Exclusive
pub mod Finish
pub mod Ownership
pub mod Atomic
pub mod Rollback
pub mod Cleanup
pub mod Lists
pub mod Failing
pub mod Failed
mod Samples
mod FailingSamples

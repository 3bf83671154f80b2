-- ===== src/Usage.antt =====
-- packages/creator-service/creator_service/usage_service.py: the ledger of usage and the quotas.
pub mod Rows
pub mod Events
pub mod Admit
pub mod Owned
pub mod Release
pub mod Summary
pub mod Service
pub mod Owners
pub mod Sequences
pub mod Admitted
pub mod Bounds
pub mod Log
pub mod Agree
mod Samples

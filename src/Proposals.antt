-- ===== src/Proposals.antt =====
-- The proposals of edits: packages/creator-service/creator_service/shorten_proposal.py and its kin.
pub mod Proposal
pub mod Shorten
pub mod Spanning
pub mod Cuts
pub mod Gaps
pub mod Applied
pub mod Trimmed
pub mod Shortens
mod Samples

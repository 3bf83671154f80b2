-- ===== src/Run/Review.antt =====
-- packages/creator-service/creator_service/stage_review_service.py: the reviews of stages, and the
-- approval that advances a run.
pub mod Rows
pub mod Approve
pub mod Approved
mod Samples

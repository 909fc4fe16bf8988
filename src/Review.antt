-- ===== src/Review.antt =====
-- review.py and review_broker.py: the diff parser, the review client and the review broker.
pub mod Finding
pub mod Lines
pub mod Diff
pub mod Client

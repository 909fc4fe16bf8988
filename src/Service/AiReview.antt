-- ===== src/Service/AiReview.antt =====
-- service.py: `process_ai_review` and its retries.
pub mod Logs
pub mod Process
pub mod Calls
pub mod Retries

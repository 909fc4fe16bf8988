-- ===== src/Service.antt =====
-- service.py: `JenkinsService`, one module for each group of its methods.
pub mod World
pub mod Calls
pub mod Status
pub mod Completion
pub mod Repositories
pub mod Refresh
pub mod ReviewLog
pub mod AiReview
pub mod Trigger
pub mod Extensions
pub mod BuildLog

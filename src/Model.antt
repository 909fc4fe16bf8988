-- ===== src/Model.antt =====
-- models.py: the data of the service and its validators.
pub mod Json
pub mod Scope
pub mod Branch
pub mod RelativePath
pub mod Repository
pub mod Review
pub mod Pipeline
pub mod Extension
pub mod Audit
pub mod Requests

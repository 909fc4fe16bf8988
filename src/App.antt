-- ===== src/App.antt =====
-- app.py: what stands between a request and the service, the security middleware and the two
-- callbacks.
pub mod Gate
pub mod Callbacks

-- ===== src/Clients.antt =====
-- clients.py: the names of Jenkins jobs.
pub mod Jobs
pub mod Http
pub mod Posts
pub mod Jenkins
pub mod GitHub
pub mod Broker

-- ===== src/Tests.antt =====
-- Runs of the model on small inputs, and each theorem at an input that meets its hypotheses.
mod Models
mod Stores
mod Remote
mod Tables
mod App
mod Extensions
mod Reviews
mod Services
mod Flows
mod Security

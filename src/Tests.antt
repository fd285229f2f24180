-- ===== src/Tests.antt =====
-- Runs at concrete inputs, and the theorems at inputs that meet their hypotheses.
pub mod Samples
mod Redaction
pub mod Processor
mod Limits
mod Monitors
pub mod Requests
mod Jobs
pub mod Server
mod Routes
mod Overlong
mod Stores
mod Sharing
pub mod Files
pub mod Connections
pub mod Services

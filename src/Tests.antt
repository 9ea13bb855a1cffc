-- ===== src/Tests.antt =====
-- Runs of the theorems at concrete inputs.
pub mod Data
mod Domain
mod Repository
mod Worker
mod App
mod Observers
mod Batch
mod Policy
mod Consumer
mod Api
mod System
mod Retry
mod Resilience
mod Retention
mod Readiness

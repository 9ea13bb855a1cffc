-- ===== src/App.antt =====
-- internal/app: what the services are made of.
pub mod Readiness
pub mod Resources
pub mod Outside
pub mod Observers
pub mod ApiServer
pub mod WorkerService

-- ===== src/Retry.antt =====
-- internal/retry: the polling of the table for deliveries that wait for another attempt.
pub mod Poller
pub mod Policy

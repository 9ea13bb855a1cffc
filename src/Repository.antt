-- ===== src/Repository.antt =====
-- internal/repository and internal/repository/postgres: the tables and the operations on them.
pub mod World
pub mod Rows
pub mod Sorting
pub mod Page
pub mod Keys
pub mod Reads
pub mod Initialize
pub mod Claim
pub mod Outcome
pub mod Replay
pub mod Subscriptions
pub mod Retention
pub mod Invariant

-- ===== src/Replication.antt =====
-- Replication: what is sent to the other servers, and when.
pub mod Backoff
pub mod Lines
pub mod Missing
pub mod Queue
pub mod Resync
pub mod Targets
pub mod Push
pub mod Batches
pub mod Sending
mod Examples

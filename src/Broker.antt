-- ===== src/Broker.antt =====
-- broker.rs: what becomes of the entries that the backend writes to its stream.
pub mod Snapshot
pub mod Xread
pub mod Outbox
pub mod Sends
pub mod Reach
pub mod Responses
pub mod Batches
mod Tests

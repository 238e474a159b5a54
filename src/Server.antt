-- ===== src/Server.antt =====
-- The crate rbmp-server: what its two programs do with the frames of the collector protocol.
pub mod Collector
pub mod Speaker
mod Tests

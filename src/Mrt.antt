-- ===== src/Mrt.antt =====
-- The crate rbmp-mrt: crates/rbmp-mrt/src, the files of RFC 6396 that the station writes and reads.
pub mod Error
pub mod Types
pub mod Writer
pub mod Reader
pub mod Frames
pub mod RoundTrip
pub mod Sequence
pub mod Events
pub mod Octets
pub mod Prefixes
pub mod Dump
mod Tests

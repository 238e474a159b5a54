-- ===== src/Core.antt =====
-- The crate rbmp-core: crates/rbmp-core/src.
pub mod Error
pub mod Slice
pub mod Buf
pub mod BufMut
pub mod Net
pub mod Io
pub mod Collector
pub mod Ipnet
pub mod Bgp
pub mod Bmp
mod Tests

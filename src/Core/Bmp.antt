-- ===== src/Core/Bmp.antt =====
-- crates/rbmp-core/src/bmp: the BMP messages.
pub mod PathStatus
pub mod Types
pub mod Tlv
pub mod Parser

-- ===== src/Core/Bgp.antt =====
-- crates/rbmp-core/src/bgp: the BGP messages that BMP carries.
pub mod Family
pub mod Capability
pub mod Open
pub mod Nlri
pub mod AsPath
pub mod TunnelEncap
pub mod Bgpsec
pub mod NextHops
pub mod Attributes
pub mod AttributeParser
pub mod Update
mod Tests

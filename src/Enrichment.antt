-- ===== src/Enrichment.antt =====
-- The crate rbmp-enrichment: crates/rbmp-enrichment/src.
pub mod Vrp
pub mod Aspa
mod Tests

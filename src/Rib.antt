-- ===== src/Rib.antt =====
-- The crate rbmp-rib: the routes of each peer, its session, and the manager that drives both.
pub mod Key
pub mod Table
pub mod Session
pub mod Manager
pub mod FilterExpr
pub mod Filter
mod Tests

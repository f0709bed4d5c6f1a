-- ===== src/Mar.antt =====
-- packages/mar/src/rca_mar: the Master Asset Registry.
pub mod Rows
pub mod Repository
pub mod Rules
pub mod Resolution
pub mod Cache
mod Tests

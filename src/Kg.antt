-- ===== src/Kg.antt =====
-- packages/kg/src/rca_kg: the knowledge graph's identifiers.
pub mod Slugs

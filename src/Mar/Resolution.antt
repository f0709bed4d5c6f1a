-- ===== src/Mar/Resolution.antt =====
-- packages/mar/src/rca_mar/resolution.py: `resolve_asset` over the in-memory repository, with the
-- lookups of packages/mar/src/rca_mar/repository.py that it calls. The time and the UUID that a
-- write draws are arguments.
pub mod Lookups
pub mod Resolve
pub mod Guarantees
pub mod Demotion

-- ===== src/Onboarding.antt =====
-- packages/onboarding/src/rca_onboarding: a crawl of a plant's hierarchy is projected into the Master
-- Asset Registry.
pub mod Rows
pub mod Projection
pub mod Reconcile
pub mod Runs
pub mod Graph
pub mod Health
pub mod Workflow
mod Tests

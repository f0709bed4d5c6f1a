-- ===== src/Agents/Probe.antt =====
-- packages/agents/src/rca_agents/workflow.py, `ProbeWorkflow`: planning, gathering, analysis and the
-- close.
pub mod Monad
pub mod Workflow
pub mod Posts
pub mod Reports
pub mod Ending
mod Tests

-- ===== src/Agents.antt =====
-- packages/agents/src/rca_agents: the agents of an investigation.
pub mod Contracts
pub mod Bridge
pub mod Planning
pub mod Analysis
pub mod Gather
pub mod Probe
mod Tests

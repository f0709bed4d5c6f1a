-- ===== src/Connections.antt =====
-- packages/connections_api/src/rca_connections_api: the REST API over the connection registry.
pub mod StateMachine
pub mod Registry
pub mod Router

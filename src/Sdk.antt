-- ===== src/Sdk.antt =====
-- packages/connector_sdk/src/rca_connector_sdk: what connectors share.
pub mod Routing
pub mod Subscription

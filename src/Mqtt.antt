-- ===== src/Mqtt.antt =====
-- packages/connectors/mqtt/src/rca_connector_mqtt: the Sparkplug B codec.
pub mod Sparkplug
pub mod Topics
pub mod Aliases
pub mod Uns
mod Tests

-- ===== src/Entities.antt =====
-- thingsboard_gateway/gateway/entities: what the connectors hand to the gateway.
pub mod Strategy
pub mod Datapoint
pub mod Converted
pub mod Split
pub mod Objects
mod Examples

-- ===== src/Converters.antt =====
-- thingsboard_gateway/connectors: the converters between values and the bytes of the devices.
pub mod Bytes
pub mod S7
pub mod Can
mod Examples

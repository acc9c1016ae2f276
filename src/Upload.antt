-- ===== src/Upload.antt =====
-- thingsboard_gateway/gateway/tb_gateway_service.py: the thread that takes events out of the event
-- storage and publishes them, and the call that puts an event into the storage.
pub mod Pack
pub mod Loop
pub mod Save
pub mod Intake
pub mod Filter
mod Examples

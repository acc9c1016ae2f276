-- ===== src/Storage.antt =====
-- thingsboard_gateway/storage: where events wait for the upload.
pub mod Contract
pub mod Memory
pub mod File
pub mod Sqlite

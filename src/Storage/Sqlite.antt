-- ===== src/Storage/Sqlite.antt =====
-- thingsboard_gateway/storage/sqlite: event storage in database files that take turns.
pub mod Table
pub mod Database
pub mod Files
pub mod Keeps
pub mod Count
pub mod Startup
mod Examples

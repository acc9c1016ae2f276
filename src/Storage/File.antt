-- ===== src/Storage/File.antt =====
-- thingsboard_gateway/storage/file: the event storage in a folder of data files. `State` has the
-- objects, `Writer` and `Reader` their methods, `Facade` the class FileEventStorage.
pub mod Bytes
pub mod State
pub mod Writer
pub mod Reader
pub mod Facade
mod Examples

-- ===== src/Storage.antt =====
-- The repositories of src/storage.
pub mod Sqlite
pub mod Blocklists
pub mod Settings
pub mod Upstreams
pub mod Sessions
pub mod Tests

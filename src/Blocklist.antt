-- ===== src/Blocklist.antt =====
-- The blocklists of src/blocklist: the parsers and the aggregation. Text is a list of characters.
pub mod Parse
pub mod Aggregate
pub mod Fetch
pub mod Scheduler
pub mod Tests

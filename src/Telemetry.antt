-- ===== src/Telemetry.antt =====
-- The counters of src/telemetry.
pub mod Stats
pub mod Tests

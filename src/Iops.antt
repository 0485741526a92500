-- ===== src/Iops.antt =====
-- couchbase_core/iops/select.py: the event loop around select.
pub mod Select
pub mod Watched
pub mod Timers
mod Tests

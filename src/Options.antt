-- ===== src/Options.antt =====
-- couchbase/options.py: the options of operations, and integers with bounds.
pub mod Bounded
pub mod Forward
pub mod Writes
pub mod Passed
pub mod Again
mod Tests

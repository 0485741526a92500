-- ===== src/Wrapper.antt =====
-- couchbase_core/__init__.py: `IterableWrapper`, which keeps the rows of a result that were read.
pub mod Rows
pub mod Again
mod Tests

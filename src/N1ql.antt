-- ===== src/N1ql.antt =====
-- couchbase_core/n1ql.py: N1QL queries and the rows of their results.
pub mod Query
pub mod Options
pub mod Request
pub mod Rows
pub mod Once
mod Tests

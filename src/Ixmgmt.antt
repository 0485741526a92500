-- ===== src/Ixmgmt.antt =====
-- couchbase_core/_ixmgmt.py: requests that manage N1QL indexes.
pub mod Index
pub mod Request
pub mod Listed
pub mod Definition
pub mod Manager
pub mod Dropped
pub mod Defined
pub mod Property
mod Tests

-- ===== src/Views.antt =====
-- couchbase_core/views: the options of a view query (params.py) and the rows of its result
-- (iterator.py).
pub mod Handlers
pub mod Query
pub mod Encode
pub mod Update
pub mod Row
pub mod View
pub mod Results
pub mod Reported
pub mod Accepts
mod RowTests
pub mod Cache
pub mod Assigned
pub mod Options
pub mod Keeps
pub mod Ranges
pub mod Spelling
mod Tests

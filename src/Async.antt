-- ===== src/Async.antt =====
-- couchbase_core/asynchronous and acouchbase/iterator.py: rows and events that callbacks deliver.
pub mod Stream
pub mod Order
pub mod Events
pub mod Complete
mod Tests

-- ===== src/Transcoder.antt =====
-- couchbase_core/transcoder.py: values to bytes and flags, and back.
pub mod Format
pub mod Convert
pub mod Flags
pub mod RoundTrip
mod Tests

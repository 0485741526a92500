-- ===== src/Mutation.antt =====
-- couchbase/mutation_state.py: the mutations that a query waits for.
pub mod State
pub mod Latest
mod Tests

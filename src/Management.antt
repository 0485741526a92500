-- ===== src/Management.antt =====
-- couchbase/management: the administration of a cluster.
pub mod Roles
pub mod RoleText
pub mod Documents
mod Tests

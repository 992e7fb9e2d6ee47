-- ===== src/Storage.antt =====
-- catchment/storage: the tables, the session, and the repositories over them.
pub mod Enums
pub mod Models
pub mod Session
pub mod Tags
pub mod Merge
pub mod Proposals
pub mod Items
pub mod Failures
pub mod Health
pub mod TagGraph
pub mod Blobs
pub mod Tests

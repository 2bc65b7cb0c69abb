-- ===== src/Mapping.antt =====
-- internal/mapping/mapping.go: the records of shared revisions, and their store.
pub mod Entries
pub mod Database

-- ===== src/Ingest.antt =====
-- internal/ingest/ingest.go: the DAG of a snapshot.
pub mod Dirs
pub mod Build
pub mod Run

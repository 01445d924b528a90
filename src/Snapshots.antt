-- ===== src/Snapshots.antt =====
-- src/schemavcs/snapshot/ and dsl/raw.py: a snapshot against the tables that a schema file describes.
pub mod Raw
pub mod Diff
pub mod ToOperations

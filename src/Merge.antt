-- ===== src/Merge.antt =====
-- src/schemavcs/merge/: what two branches did to the same objects, and how that becomes one node.
pub mod Grouping
pub mod Classify
pub mod CrossObject
pub mod NameCollision
pub mod Resolve
pub mod Engine

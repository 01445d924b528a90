-- ===== src/Dag.antt =====
-- src/schemavcs/dag/: the history of migrations and the state that it replays to.
pub mod Apply
pub mod Store
pub mod Walk
pub mod Persistence

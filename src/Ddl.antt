-- ===== src/Ddl.antt =====
-- src/schemavcs/ddl/: the order of a batch of operations, and their text in SQL.
pub mod Toposort
pub mod Emitter

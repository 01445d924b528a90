-- ===== src/Dsl.antt =====
-- src/schemavcs/dsl/: the text of a schema file.
pub mod Render

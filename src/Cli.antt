-- ===== src/Cli.antt =====
-- src/schemavcs/cli/: the commands, and the names that a person types.
pub mod Resolve
pub mod Branch
pub mod Migrate
pub mod Main

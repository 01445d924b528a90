-- ===== src/Web.antt =====
-- src/schemavcs_web/: the confirmation of a merge conflict in a browser.
pub mod Bridge
pub mod ConfirmAdapter

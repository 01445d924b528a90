-- ===== src/Rename.antt =====
-- src/schemavcs/rename_detect/.
pub mod Similarity
pub mod Match
pub mod Detector

-- ===== src/Model.antt =====
-- src/schemavcs/model/: the values that everything else passes around.
-- A UUID is the natural number that it stands for; a RevisionId is a string, as in the source.
pub mod Schema
pub mod Serialize
pub mod Operations

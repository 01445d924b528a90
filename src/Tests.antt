-- ===== src/Tests.antt =====
-- Concrete inputs, runs of the code on them, and an instance of each theorem.
mod Samples
mod Graph
mod Tables
mod Merging
mod Renames
mod Rendering
mod Schemas
mod Bridge
mod Commands

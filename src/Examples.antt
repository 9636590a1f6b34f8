-- ===== src/Examples.antt =====
-- Concrete tables and documents, and the theorems applied to them.
pub mod Lineages
pub mod Documents
pub mod Runs
pub mod Attempts
pub mod Grids
pub mod Imports

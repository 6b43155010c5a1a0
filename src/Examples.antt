-- ===== src/Examples.antt =====
-- A small board, and the programs' theorems applied to it.
pub mod World
pub mod Witnesses
pub mod Administering
pub mod Logging
pub mod Auditing
pub mod LoggingIn
pub mod Rights
pub mod Windows

-- ===== src/Examples.antt =====
-- Concrete inputs of the theorems: a cipher, an environment and tables.
pub mod Cipher
pub mod Tables
pub mod Witnesses
pub mod Runs
pub mod Chat
pub mod ChatRuns
pub mod Requests
pub mod Starts
pub mod Inventory

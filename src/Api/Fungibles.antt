-- ===== src/Api/Fungibles.antt =====
-- pallets/api/src/fungibles/mod.rs
pub mod Types
pub mod State
pub mod Codec
pub mod Calls
pub mod Reads
pub mod Dispatch
pub mod Allowance
pub mod Burning
pub mod Isolation
pub mod Success
pub mod Events
pub mod Books
pub mod Custody
pub mod Weights
pub mod Table
pub mod Running
pub mod Supply
pub mod Balances

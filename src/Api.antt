-- ===== src/Api.antt =====
-- pallets/api/src: the chain extension's conventions (extension.rs) and the fungibles pallet.
pub mod Extension
pub mod Codec
pub mod Fungibles

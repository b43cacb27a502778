-- ===== src/Runtime.antt =====
-- runtime/devnet/src: the runtime's calls and the configuration of the chain extension.
pub mod Calls
pub mod Versioning
pub mod Filter
pub mod Config
pub mod Errors
pub mod Unanswered
pub mod Allowed
pub mod Proxy
pub mod Proxies
pub mod Xcm
pub mod Trust
pub mod Fees
pub mod Deposits
pub mod Pallets
pub mod Metering

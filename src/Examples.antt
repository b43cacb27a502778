-- ===== src/Examples.antt =====
-- The theorems at concrete inputs: a machine for the chain extension, codecs, a ledger in the place of
-- pallet-assets and a chain in the place of ink!.
mod Machine
mod Codecs
mod Ledger
mod Supply
mod Balances
mod Sessions
mod Tokens
mod Taking
mod Courses
mod Creating
mod Pallets
mod Extension
mod Fungibles
mod Runtime
mod Live
mod Chain
mod Requests
mod Contract
mod Node
mod Fees
mod Trust
mod Errors

-- ===== src/Runtime/Pallets.antt =====
-- The pallets of runtime/devnet/src/lib.rs with their indices, which calls and errors carry. The
-- indices that other files name stand there.
use pop_node.Prelude.{ℕ}
use pop_node.Runtime.Calls.{fungibles_index}
use pop_node.Runtime.Versioning.{contracts_index}

pub data Pallet : Type 0 where
  system parachain_system timestamp parachain_info balances transaction_payment : Pallet
  sudo authorship collator_selection session aura aura_ext scheduler preimage : Pallet
  xcmp_queue polkadot_xcm cumulus_xcm message_queue ismp ismp_parachain : Pallet
  contracts proxy multisig utility nfts nft_fractionalization assets fungibles : Pallet

-- `pallet_index`
unfoldable pub devnet_index : Pallet → ℕ
devnet_index Pallet.system = 0
devnet_index Pallet.parachain_system = 1
devnet_index Pallet.timestamp = 2
devnet_index Pallet.parachain_info = 3
devnet_index Pallet.balances = 10
devnet_index Pallet.transaction_payment = 11
devnet_index Pallet.sudo = 15
devnet_index Pallet.authorship = 20
devnet_index Pallet.collator_selection = 21
devnet_index Pallet.session = 22
devnet_index Pallet.aura = 23
devnet_index Pallet.aura_ext = 24
devnet_index Pallet.scheduler = 28
devnet_index Pallet.preimage = 29
devnet_index Pallet.xcmp_queue = 30
devnet_index Pallet.polkadot_xcm = 31
devnet_index Pallet.cumulus_xcm = 32
devnet_index Pallet.message_queue = 33
devnet_index Pallet.ismp = 38
devnet_index Pallet.ismp_parachain = 39
devnet_index Pallet.contracts = contracts_index
devnet_index Pallet.proxy = 41
devnet_index Pallet.multisig = 42
devnet_index Pallet.utility = 43
devnet_index Pallet.nfts = 50
devnet_index Pallet.nft_fractionalization = 51
devnet_index Pallet.assets = 52
devnet_index Pallet.fungibles = fungibles_index

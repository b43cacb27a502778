-- ===== src/Runtime/Proxy.antt =====
-- runtime/devnet/src/config/proxy.rs and runtime/mainnet/src/config/proxy.rs: what the kinds of proxies
-- may call. The testnet has the devnet's file. The arguments of calls play no part.
use pop_node.Prelude.{Bool, true, false, not}
use pop_node.Common.{ProxyType}

pub data AssetsCall : Type 0 where
  create start_destroy destroy_accounts destroy_approvals finish_destroy : AssetsCall
  transfer_ownership set_team set_metadata clear_metadata set_min_balance : AssetsCall
  mint burn freeze block thaw freeze_asset thaw_asset touch_other refund_other : AssetsCall
  another : AssetsCall

pub data NftsCall : Type 0 where
  create destroy redeposit transfer_ownership set_team set_collection_max_supply : NftsCall
  lock_collection force_mint update_mint_settings mint_pre_signed : NftsCall
  set_attributes_pre_signed lock_item_transfer unlock_item_transfer : NftsCall
  lock_item_properties set_metadata clear_metadata set_collection_metadata : NftsCall
  clear_collection_metadata another : NftsCall

-- The runtime's calls, as far as the filters tell them apart.
pub data ProxiedCall : Type 0 where
  assets : AssetsCall → ProxiedCall
  nfts : NftsCall → ProxiedCall
  reject_announcement another_of_proxy : ProxiedCall
  balances utility multisig collator_selection elsewhere : ProxiedCall

-- `RuntimeCall::Utility { .. } | RuntimeCall::Multisig { .. }`
abbrev pub wraps : ProxiedCall → Bool
wraps ProxiedCall.utility = true
wraps ProxiedCall.multisig = true
wraps _ = false

abbrev pub moves_funds : ProxiedCall → Bool
moves_funds ProxiedCall.balances = true
moves_funds (ProxiedCall.assets _) = true
moves_funds (ProxiedCall.nfts _) = true
moves_funds _ = false

abbrev pub of_assets : ProxiedCall → Bool
of_assets (ProxiedCall.assets _) = true
of_assets (ProxiedCall.nfts _) = true
of_assets c = wraps c

abbrev pub owns : ProxiedCall → Bool
owns (ProxiedCall.assets AssetsCall.create) = true
owns (ProxiedCall.assets AssetsCall.start_destroy) = true
owns (ProxiedCall.assets AssetsCall.destroy_accounts) = true
owns (ProxiedCall.assets AssetsCall.destroy_approvals) = true
owns (ProxiedCall.assets AssetsCall.finish_destroy) = true
owns (ProxiedCall.assets AssetsCall.transfer_ownership) = true
owns (ProxiedCall.assets AssetsCall.set_team) = true
owns (ProxiedCall.assets AssetsCall.set_metadata) = true
owns (ProxiedCall.assets AssetsCall.clear_metadata) = true
owns (ProxiedCall.assets AssetsCall.set_min_balance) = true
owns (ProxiedCall.nfts NftsCall.create) = true
owns (ProxiedCall.nfts NftsCall.destroy) = true
owns (ProxiedCall.nfts NftsCall.redeposit) = true
owns (ProxiedCall.nfts NftsCall.transfer_ownership) = true
owns (ProxiedCall.nfts NftsCall.set_team) = true
owns (ProxiedCall.nfts NftsCall.set_collection_max_supply) = true
owns (ProxiedCall.nfts NftsCall.lock_collection) = true
owns c = wraps c

abbrev pub manages : ProxiedCall → Bool
manages (ProxiedCall.assets AssetsCall.mint) = true
manages (ProxiedCall.assets AssetsCall.burn) = true
manages (ProxiedCall.assets AssetsCall.freeze) = true
manages (ProxiedCall.assets AssetsCall.block) = true
manages (ProxiedCall.assets AssetsCall.thaw) = true
manages (ProxiedCall.assets AssetsCall.freeze_asset) = true
manages (ProxiedCall.assets AssetsCall.thaw_asset) = true
manages (ProxiedCall.assets AssetsCall.touch_other) = true
manages (ProxiedCall.assets AssetsCall.refund_other) = true
manages (ProxiedCall.nfts NftsCall.force_mint) = true
manages (ProxiedCall.nfts NftsCall.update_mint_settings) = true
manages (ProxiedCall.nfts NftsCall.mint_pre_signed) = true
manages (ProxiedCall.nfts NftsCall.set_attributes_pre_signed) = true
manages (ProxiedCall.nfts NftsCall.lock_item_transfer) = true
manages (ProxiedCall.nfts NftsCall.unlock_item_transfer) = true
manages (ProxiedCall.nfts NftsCall.lock_item_properties) = true
manages (ProxiedCall.nfts NftsCall.set_metadata) = true
manages (ProxiedCall.nfts NftsCall.clear_metadata) = true
manages (ProxiedCall.nfts NftsCall.set_collection_metadata) = true
manages (ProxiedCall.nfts NftsCall.clear_collection_metadata) = true
manages c = wraps c

abbrev pub cancels : ProxiedCall → Bool
cancels ProxiedCall.reject_announcement = true
cancels c = wraps c

abbrev pub collates : ProxiedCall → Bool
collates ProxiedCall.collator_selection = true
collates c = wraps c

-- `InstanceFilter::filter` of the devnet and of the testnet
unfoldable pub filter : ProxyType → ProxiedCall → Bool
filter ProxyType.any c = true
filter ProxyType.non_transfer c = not (moves_funds c)
filter ProxyType.cancel_proxy c = cancels c
filter ProxyType.assets c = of_assets c
filter ProxyType.asset_owner c = owns c
filter ProxyType.asset_manager c = manages c
filter ProxyType.collator c = collates c

abbrev pub of_balances : ProxiedCall → Bool
of_balances ProxiedCall.balances = true
of_balances _ = false

-- `InstanceFilter::filter` of the mainnet, which has neither assets nor NFTs
unfoldable pub mainnet_filter : ProxyType → ProxiedCall → Bool
mainnet_filter ProxyType.any c = true
mainnet_filter ProxyType.non_transfer c = not (of_balances c)
mainnet_filter ProxyType.cancel_proxy c = cancels c
mainnet_filter ProxyType.assets c = wraps c
mainnet_filter ProxyType.asset_owner c = wraps c
mainnet_filter ProxyType.asset_manager c = wraps c
mainnet_filter ProxyType.collator c = collates c

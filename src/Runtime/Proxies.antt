-- ===== src/Runtime/Proxies.antt =====
-- The order of the proxy types (runtime/common/src/lib.rs) against what they may call
-- (runtime/devnet/src/config/proxy.rs, runtime/mainnet/src/config/proxy.rs).
use pop_node.Prelude.{◌≡◌, refl, true, not}
use pop_node.Common.{ProxyType, is_superset}
use pop_node.Runtime.Proxy.{
  ProxiedCall, of_assets, owns, manages, collates, moves_funds, of_balances, filter, mainnet_filter,
}

owns-of_assets : (c : ProxiedCall) → owns c ≡ true → of_assets c ≡ true
owns-of_assets (ProxiedCall.assets x) p = refl
owns-of_assets (ProxiedCall.nfts x) p = refl
owns-of_assets ProxiedCall.balances p = p
owns-of_assets _ p = p

manages-of_assets : (c : ProxiedCall) → manages c ≡ true → of_assets c ≡ true
manages-of_assets (ProxiedCall.assets x) p = refl
manages-of_assets (ProxiedCall.nfts x) p = refl
manages-of_assets ProxiedCall.balances p = p
manages-of_assets _ p = p

collates-moves_funds :
    (c : ProxiedCall)
    → collates c ≡ true
    → (not (moves_funds c) ≡ true) × (not (of_balances c) ≡ true)
collates-moves_funds (ProxiedCall.assets x) p = absurd cc
collates-moves_funds (ProxiedCall.nfts x) p = absurd cc
collates-moves_funds ProxiedCall.balances p = absurd cc
collates-moves_funds _ p = (refl, refl)

-- A proxy type that is a superset of another may call whatever the other may: on the devnet and the
-- testnet, and on the mainnet.
pub is_superset-filter :
    (s o : ProxyType) (c : ProxiedCall)
    → is_superset s o ≡ true
    → (filter o c ≡ true → filter s c ≡ true)
      × (mainnet_filter o c ≡ true → mainnet_filter s c ≡ true)
unfolding is_superset filter mainnet_filter
is_superset-filter ProxyType.any o c h = (λ p. refl, λ p. refl)
is_superset-filter ProxyType.assets ProxyType.asset_owner c h = (owns-of_assets c, λ p. p)
is_superset-filter ProxyType.assets ProxyType.asset_manager c h = (manages-of_assets c, λ p. p)
is_superset-filter ProxyType.non_transfer ProxyType.collator c h =
    (λ p. (collates-moves_funds c p).0, λ p. (collates-moves_funds c p).1)
is_superset-filter ProxyType.non_transfer ProxyType.non_transfer c h = (λ p. p, λ p. p)
is_superset-filter ProxyType.cancel_proxy ProxyType.cancel_proxy c h = (λ p. p, λ p. p)
is_superset-filter ProxyType.assets ProxyType.assets c h = (λ p. p, λ p. p)
is_superset-filter ProxyType.asset_owner ProxyType.asset_owner c h = (λ p. p, λ p. p)
is_superset-filter ProxyType.asset_manager ProxyType.asset_manager c h = (λ p. p, λ p. p)
is_superset-filter ProxyType.collator ProxyType.collator c h = (λ p. p, λ p. p)
is_superset-filter _ _ c h = absurd cc

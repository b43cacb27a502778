-- ===== src/Examples/Trust.antt =====
-- Reserves and the parent (runtime/devnet/src/config/xcm.rs), with xcm-builder's filter in the place of
-- `NativeAsset`.
use pop_node.Prelude.{ℕ, ◌≡◌, ◌⊎◌, Bool, true, false, arith, [], ◌∷◌}
use pop_node.Runtime.Xcm.{
  Junction, Location, Fungibility, Asset, same_location, parent, asset_hub, trusted_reserves,
}
use pop_node.Runtime.Trust.{same_location-eq, trusted_reserves-origin}

-- A sibling parachain.
abbrev sibling : Location
sibling = record { parents = 1; interior = Junction.parachain 2000 ∷ [] }

abbrev native_asset : Asset → Location → Bool
native_asset a o = elim a.fun [
  | Fungibility.fungible n ↦ same_location a.id o
  | Fungibility.non_fungible n ↦ false
]

native_asset-own : (a : Asset) (o : Location) → native_asset a o ≡ true → a.id ≡ o
native_asset-own a o h = ground (arith, same_location-eq a.id o)

-- An amount of the relay chain's currency.
abbrev dots : Asset
dots = record { id = parent; fun = Fungibility.fungible 7 }

trusted_reserves-origin_example :
    (trusted_reserves native_asset dots sibling ≡ true
      → (parent ≡ sibling)
        ⊎ ((sibling ≡ asset_hub)
            × (parent ≡ parent)
            × ((n : ℕ) × (Fungibility.fungible 7 ≡ Fungibility.fungible n))))
    × ((n : ℕ)
        → trusted_reserves native_asset
            (record { id = parent; fun = Fungibility.fungible n })
            asset_hub
          ≡ true)
trusted_reserves-origin_example = trusted_reserves-origin native_asset native_asset-own dots sibling

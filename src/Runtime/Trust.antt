-- ===== src/Runtime/Trust.antt =====
-- What the filters of runtime/devnet/src/config/xcm.rs let through.
use pop_node.Prelude.{
  ℕ, ◌≡◌, refl, Bool, true, false, ◌&&◌, ◌||◌, ◌⊎◌, inl, inr, ◌↔◌, List, [], ◌∷◌, Bool-cases, arith,
  sym,
}
use pop_node.Runtime.Xcm.{
  BodyId, Junction, Location, Fungibility, Asset, same_location, same_interior, same_junction,
  same_body, parent, asset_hub, contains_parent, native_asset_from, trusted_reserves,
  is_relay_asset,
}

same_body-eq : (b c : BodyId) → same_body b c ≡ true → b ≡ c
same_body-eq b c h = ground arith

same_junction-eq : (a b : Junction) → same_junction a b ≡ true → a ≡ b
same_junction-eq (Junction.plurality b p) (Junction.plurality c q) h =
    ground (arith, same_body-eq b c)
same_junction-eq (Junction.parachain m) b h = ground arith
same_junction-eq (Junction.another m) b h = ground arith
same_junction-eq (Junction.plurality c p) b h = absurd cc

same_interior-eq : (a b : List Junction) → same_interior a b ≡ true → a ≡ b
same_interior-eq [] [] h = refl
same_interior-eq [] (b ∷ ys) h = absurd cc
same_interior-eq (a ∷ xs) [] h = absurd cc
same_interior-eq (a ∷ xs) (b ∷ ys) h = ground (arith, same_junction-eq a b, same_interior-eq xs ys)

pub same_location-eq : (l m : Location) → same_location l m ≡ true → l ≡ m
same_location-eq l m h = ground (arith, same_interior-eq l.interior m.interior)

abbrev pub executive_of : ℕ → Location
executive_of part = record { parents = 1; interior = Junction.plurality BodyId.executive part ∷ [] }

contains_parent-eq :
    (parents : ℕ) (interior : List Junction)
    → let l : Location = record { parents = parents; interior = interior } in
      contains_parent l ≡ true → (l ≡ parent) ⊎ ((part : ℕ) × (l ≡ executive_of part))
unfolding contains_parent
contains_parent-eq n [] h = inl (ground arith)
contains_parent-eq n (Junction.plurality BodyId.executive part ∷ []) h = inr (part, ground arith)
contains_parent-eq n (Junction.plurality (BodyId.another_body m) part ∷ []) h = absurd cc
contains_parent-eq n (Junction.parachain m ∷ []) h = absurd cc
contains_parent-eq n (Junction.another m ∷ []) h = absurd cc
contains_parent-eq n (j ∷ k ∷ js) h = absurd cc

contains_parent-holds :
    (l : Location)
    → (l ≡ parent) ⊎ ((part : ℕ) × (l ≡ executive_of part))
    → contains_parent l ≡ true
unfolding contains_parent
contains_parent-holds l (inl p) = rw p refl
contains_parent-holds l (inr (part, p)) = rw p refl

-- Only the relay chain itself and the executive body on it count as the parent: no sibling, no other
-- body and nothing within them.
pub contains_parent_iff :
    (l : Location)
    → (contains_parent l ≡ true) ↔ ((l ≡ parent) ⊎ ((part : ℕ) × (l ≡ executive_of part)))
unfolding contains_parent
contains_parent_iff l = (contains_parent-eq l.parents l.interior, contains_parent-holds l)

relay_asset-eq :
    (a : Asset)
    → is_relay_asset a ≡ true
    → (a.id ≡ parent) × ((n : ℕ) × (a.fun ≡ Fungibility.fungible n))
relay_asset-eq a h = ground (arith, same_location-eq a.id parent)

and-eq-true : (a b : Bool) → (a && b) ≡ true → (a ≡ true) × (b ≡ true)
and-eq-true true b h = (refl, h)
and-eq-true false b h = absurd cc

or_true : (b : Bool) → (b || true) ≡ true
or_true true = refl
or_true false = refl

trusted-cases :
    (native_asset : Asset → Location → Bool)
    → ((a : Asset) (o : Location) → native_asset a o ≡ true → a.id ≡ o)
    → (a : Asset) (o : Location) → trusted_reserves native_asset a o ≡ true
    → (a.id ≡ o)
      ⊎ ((o ≡ asset_hub) × (a.id ≡ parent) × ((n : ℕ) × (a.fun ≡ Fungibility.fungible n)))
unfolding trusted_reserves native_asset_from
trusted-cases native_asset own a o h = elim (Bool-cases (native_asset a o)) [
  | inl p ↦ inl (own a o p)
  | inr q ↦
      let (hub, relay) = and-eq-true _ _ (rw q at h) in
      let (id, fun) = relay_asset-eq a relay in
      inr (sym (same_location-eq asset_hub o hub), id, fun)
]

-- An origin that is trusted as the reserve of an asset is the asset's own location, or else it is
-- Asset Hub and the asset is an amount of the relay chain's currency; given that xcm-builder's
-- `NativeAsset` trusts an origin with its own assets only. And with the latter Asset Hub is trusted.
pub trusted_reserves-origin :
    (native_asset : Asset → Location → Bool)
    → ((a : Asset) (o : Location) → native_asset a o ≡ true → a.id ≡ o)
    → (a : Asset) (o : Location)
    → (trusted_reserves native_asset a o ≡ true
        → (a.id ≡ o)
          ⊎ ((o ≡ asset_hub) × (a.id ≡ parent) × ((n : ℕ) × (a.fun ≡ Fungibility.fungible n))))
      × ((n : ℕ)
          → trusted_reserves native_asset
              (record { id = parent; fun = Fungibility.fungible n })
              asset_hub
            ≡ true)
unfolding trusted_reserves native_asset_from
trusted_reserves-origin native_asset own a o =
    (trusted-cases native_asset own a o, λ n. or_true (native_asset _ asset_hub))

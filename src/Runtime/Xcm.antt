-- ===== src/Runtime/Xcm.antt =====
-- runtime/devnet/src/config/xcm.rs: whom the runtime trusts, on the devnet and the testnet, and as to the
-- reserves also on the mainnet. Locations and assets are xcm's, as far as the code looks into them.
use pop_node.Prelude.{ℕ, Bool, true, false, ◌==◌, ◌&&◌, ◌||◌, List, [], ◌∷◌}

-- `BodyId`
pub data BodyId : Type 0 where
  executive : BodyId
  another_body : ℕ → BodyId

-- `Junction`: `plurality id part` is `Plurality { id, part }`.
pub data Junction : Type 0 where
  parachain : ℕ → Junction
  plurality : BodyId → ℕ → Junction
  another : ℕ → Junction

-- `Location`
pub record Location : Type 0 where
  pub parents : ℕ
  pub interior : List Junction

-- `Fungibility`
pub data Fungibility : Type 0 where
  fungible non_fungible : ℕ → Fungibility

-- `Asset`, its id as the location that it is
pub record Asset : Type 0 where
  pub id : Location
  pub fun : Fungibility

abbrev pub same_body : BodyId → BodyId → Bool
same_body executive executive = true
same_body (another_body m) (another_body n) = m == n
same_body _ _ = false

abbrev pub same_junction : Junction → Junction → Bool
same_junction (parachain m) (parachain n) = m == n
same_junction (plurality b p) (plurality c q) = same_body b c && p == q
same_junction (another m) (another n) = m == n
same_junction _ _ = false

abbrev pub same_interior : List Junction → List Junction → Bool
same_interior [] [] = true
same_interior (a ∷ xs) (b ∷ ys) = same_junction a b && same_interior xs ys
same_interior _ _ = false

-- The derived `==` of `Location`
abbrev pub same_location : Location → Location → Bool
same_location l m = l.parents == m.parents && same_interior l.interior m.interior

-- `Location::from(Parent)`
abbrev pub parent : Location
parent = record { parents = 1; interior = [] }

-- `AssetHub`
abbrev pub asset_hub : Location
asset_hub = record { parents = 1; interior = parachain 1000 ∷ [] }

-- `ParentOrParentsExecutivePlurality::contains`
unfoldable pub contains_parent : Location → Bool
contains_parent l = elim l.interior [
  | [] ↦ l.parents == 1
  | j ∷ js ↦ elim js [
    | [] ↦ elim j [
      | plurality b part ↦ elim b [ executive ↦ l.parents == 1 | another_body n ↦ false ]
      | parachain n ↦ false
      | another n ↦ false
    ]
    | k ∷ ks ↦ false
  ]
]

-- The pattern of the `matches!` in `NativeAssetFrom::contains`
abbrev pub is_relay_asset : Asset → Bool
is_relay_asset asset = elim asset.fun [
  | fungible amount ↦ same_location asset.id parent
  | non_fungible instance ↦ false
]

-- `NativeAssetFrom<T>::contains`
unfoldable pub native_asset_from : Location → Asset → Location → Bool
native_asset_from t asset origin = same_location t origin && is_relay_asset asset

-- `TrustedReserves`, with `NativeAsset` of xcm-builder
unfoldable pub trusted_reserves : (Asset → Location → Bool) → Asset → Location → Bool
unfolding native_asset_from
trusted_reserves native_asset asset origin =
    native_asset asset origin || native_asset_from asset_hub asset origin

-- ===== src/Common.antt =====
-- runtime/common/src/lib.rs: deposits, and the kinds of proxies.
use pop_node.Prelude.{
  ℕ, ◌+◌, ◌*◌, ◌/◌, ◌<◌, ◌^◌, ◌≡◌, arith, Bool, true, false, ◌==◌, if◌then◌else◌,
}
use pop_node.Frame.{Balance}

abbrev pub unit : Balance
unit = 10000000000

abbrev pub milliunit : Balance
milliunit = unit / 1000

-- `deposit`
unfoldable pub deposit : ℕ → ℕ → Balance
deposit items bytes = (items * unit + bytes * (5 * milliunit / 100)) / 10

-- `ProxyType`
pub data ProxyType : Type 0 where
  any non_transfer cancel_proxy assets asset_owner asset_manager collator : ProxyType

abbrev position : ProxyType → ℕ
position any = 0
position non_transfer = 1
position cancel_proxy = 2
position assets = 3
position asset_owner = 4
position asset_manager = 5
position collator = 6

-- The derived `==` of `ProxyType`.
abbrev pub same : ProxyType → ProxyType → Bool
same x y = position x == position y

-- `ProxyType::is_superset`, the cases after the test for equality
abbrev above : ProxyType → ProxyType → Bool
above any o = true
above s any = false
above assets asset_owner = true
above assets asset_manager = true
above non_transfer collator = true
above s o = false

-- `ProxyType::is_superset`
unfoldable pub is_superset : ProxyType → ProxyType → Bool
is_superset s o = if same s o then true else above s o

-- `is_superset` is a partial order: reflexive, transitive and antisymmetric.
pub is_superset-order :
    (x y z : ProxyType)
    → (is_superset x x ≡ true)
      × (is_superset x y ≡ true → is_superset y z ≡ true → is_superset x z ≡ true)
      × (is_superset x y ≡ true → is_superset y x ≡ true → x ≡ y)
unfolding is_superset
is_superset-order x y z = ground arith

-- For `u32` counts the computation of a deposit stays within a `u128`.
pub deposit-lt :
    (items bytes : ℕ)
    → items < 2 ^ 32
    → bytes < 2 ^ 32
    → (items * unit + bytes * (5 * milliunit / 100) < 2 ^ 128) × (deposit items bytes < 2 ^ 128)
unfolding deposit
deposit-lt items bytes hi hb = (omega arith, omega arith)

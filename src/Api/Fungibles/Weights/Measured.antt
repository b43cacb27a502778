-- ===== src/Api/Fungibles/Weights/Measured.antt =====
-- pallets/api/src/fungibles/weights.rs: the measured weights, `SubstrateWeight`. The arithmetic of
-- weights and what the database's reads and writes weigh are FRAME's.
use pop_node.Prelude.{ℕ, ◌+◌, ◌*◌, ◌-◌, ◌^◌, ◌≤◌, ◌≡◌, leb, if◌then◌else◌, some}
use pop_node.Frame.{Weight}
use pop_node.Api.Fungibles.Types.{WeightInfo}
use pop_node.Api.Fungibles.State.{State}
use pop_node.Api.Fungibles.Weights.{AtMost}

-- `Weight::saturating_add` and `Weight::saturating_mul` of sp-weights, and `reads` and `writes` of the
-- runtime's `DbWeight`.
pub record Weighing : Type 0 where
  pub saturating_add : Weight → Weight → Weight
  pub saturating_mul : Weight → ℕ → Weight
  pub reads : ℕ → Weight
  pub writes : ℕ → Weight

abbrev from_parts : ℕ → ℕ → Weight
from_parts ref_time proof_size = record { ref_time = ref_time; proof_size = proof_size }

-- A `u64` that stops at its greatest value.
abbrev pub saturated : ℕ → ℕ
saturated n = if leb n (2 ^ 64 - 1) then n else 2 ^ 64 - 1

-- `u64::saturating_mul`
abbrev times : ℕ → ℕ → ℕ
times a b = saturated (a * b)

module _ (m : Weighing) where
  open m use {saturating_add, saturating_mul, reads, writes}

  unfoldable pub approve : ℕ → ℕ → Weight
  approve a c =
      let base =
        saturating_add
          (saturating_add (from_parts 2877551 3675) (saturating_mul (from_parts 24846938 0) a))
          (saturating_mul (from_parts 38375510 0) c) in
      let read = saturating_add (saturating_add base (reads 2)) (reads (times 1 c)) in
      saturating_add (saturating_add read (writes 2)) (writes (times 1 c))

  unfoldable pub total_supply : Weight
  total_supply = saturating_add (from_parts 2000000 3675) (reads 1)

  unfoldable pub balance_of : Weight
  balance_of = saturating_add (from_parts 3000000 3599) (reads 1)

  unfoldable pub allowance : Weight
  allowance = saturating_add (from_parts 5000000 3613) (reads 1)

  unfoldable pub token_name : Weight
  token_name = saturating_add (from_parts 2000000 3605) (reads 1)

  unfoldable pub token_symbol : Weight
  token_symbol = saturating_add (from_parts 2000000 3605) (reads 1)

  unfoldable pub token_decimals : Weight
  token_decimals = saturating_add (from_parts 2000000 3605) (reads 1)

  unfoldable pub token_exists : Weight
  token_exists = saturating_add (from_parts 2000000 3675) (reads 1)

  -- `impl WeightInfo for SubstrateWeight<T>`, given the weight of pallet-assets that a function
  -- returns
  unfoldable pub substrate_weight : Weight → WeightInfo
  unfolding approve total_supply balance_of allowance token_name token_symbol token_decimals
      token_exists
  substrate_weight assets_approve_transfer = record {
    approve = approve;
    total_supply = total_supply;
    balance_of = balance_of;
    allowance = allowance;
    token_name = token_name;
    token_symbol = token_symbol;
    token_decimals = token_decimals;
    token_exists = token_exists;
    assets_approve_transfer = assets_approve_transfer;
  }

  -- What FRAME documents: the operations saturate in each part, and more reads or writes do not weigh
  -- less.
  pub record Saturates : Type 0 where
    pub add_ref_time :
        (a b : Weight) → (saturating_add a b).ref_time ≡ saturated (a.ref_time + b.ref_time)
    pub add_proof_size :
        (a b : Weight) → (saturating_add a b).proof_size ≡ saturated (a.proof_size + b.proof_size)
    pub mul_ref_time :
        (a : Weight) (n : ℕ) → (saturating_mul a n).ref_time ≡ saturated (a.ref_time * n)
    pub mul_proof_size :
        (a : Weight) (n : ℕ) → (saturating_mul a n).proof_size ≡ saturated (a.proof_size * n)
    pub reads_grow : (x y : ℕ) → x ≤ y → AtMost (reads y) (some (reads x))
    pub writes_grow : (x y : ℕ) → x ≤ y → AtMost (writes y) (some (writes x))

-- ===== src/Runtime/Fees.antt =====
-- runtime/mainnet/src/lib.rs: the deposits and the fees of the mainnet; and the weight fee of the devnet
-- (runtime/devnet/src/lib.rs), which the testnet shares. A polynomial's evaluation and its fractions
-- are FRAME's.
use pop_node.Prelude.{
  ℕ, ◌+◌, ◌*◌, ◌/◌, ◌%◌, ◌^◌, ◌≤◌, ◌<◌, ◌≡◌, refl, ◌⊎◌, inl, inr, ◌∙◌, arith, Bool, false, leb,
  if◌then◌else◌, List, [], ◌∷◌,
}
use native.Mathlib.Nat.{le_trans}
use pop_node.Frame.{Balance, Weight}
use pop_node.Common.{unit, milliunit}

-- `WeightToFeeCoefficient`, over the type of its fraction
pub record Coefficient (Perbill : Type 0) : Type 0 where
  pub degree : ℕ
  pub negative : Bool
  pub coeff_frac : Perbill
  pub coeff_integer : Balance

-- What comes from FRAME: `Perbill::from_rational`, `FeePolynomial::eval` and the time of
-- `ExtrinsicBaseWeight`.
pub record Polynomials : Type 1 where
  pub Perbill : Type 0
  pub from_rational : ℕ → ℕ → Perbill
  pub eval : List (Coefficient Perbill) → ℕ → Balance
  pub base_ref_time : ℕ

-- `fee::CENTS`, `fee::MILLICENTS` and `fee::TRANSACTION_BYTE_FEE`
abbrev pub cents : Balance
cents = milliunit * 10

abbrev pub millicents : Balance
millicents = cents / 1000

abbrev pub transaction_byte_fee : Balance
transaction_byte_fee = millicents / 2

-- `deposit` of the mainnet
unfoldable pub mainnet_deposit : ℕ → ℕ → Balance
mainnet_deposit items bytes = (items * 20 * unit + bytes * 100 * millicents) / 100

abbrev max : ℕ → ℕ → ℕ
max a b = if leb a b then b else a

module _ (f : Polynomials) where
  abbrev pub linear : ℕ → ℕ → List (Coefficient f.Perbill)
  linear p q =
      record {
        degree = 1;
        negative = false;
        coeff_frac = f.from_rational (p % q) q;
        coeff_integer = p / q;
      }
      ∷ []

  -- `RefTimeToFee::polynomial`
  unfoldable pub ref_time_to_fee : List (Coefficient f.Perbill)
  ref_time_to_fee = linear cents (200 * f.base_ref_time)

  -- `ProofSizeToFee::polynomial`
  unfoldable pub proof_size_to_fee : List (Coefficient f.Perbill)
  proof_size_to_fee = linear cents 20000

  -- `fee::WeightToFee::weight_to_fee`
  unfoldable pub weight_to_fee : Weight → Balance
  unfolding ref_time_to_fee proof_size_to_fee
  weight_to_fee w = max (f.eval ref_time_to_fee w.ref_time) (f.eval proof_size_to_fee w.proof_size)

  -- `WeightToFee::polynomial` of the devnet and the testnet
  unfoldable pub devnet_polynomial : List (Coefficient f.Perbill)
  devnet_polynomial = linear (milliunit / 10) (100 * f.base_ref_time)

  -- What FRAME documents: a polynomial of one term of degree one that is not negative grows, is at
  -- least its integer part, and is that part where nothing is left of the division.
  pub record Evaluates : Type 0 where
    pub base_positive : 0 < f.base_ref_time
    pub grows : (p q x y : ℕ) → 0 < q → x ≤ y → f.eval (linear p q) x ≤ f.eval (linear p q) y
    pub whole :
        (p q x : ℕ)
        → p < 2 ^ 64
        → x < 2 ^ 64
        → 0 < q
        → p % q ≡ 0
        → f.eval (linear p q) x ≡ p / q * x

  -- The larger of two amounts.
  max-cases : (a b : ℕ) → (a ≤ max a b) × (b ≤ max a b) × ((max a b ≡ a) ⊎ (max a b ≡ b))
  max-cases a b = ground arith

  max_le : (a b c : ℕ) → a ≤ c → b ≤ c → max a b ≤ c
  max_le a b c p q = ground arith

  module _ (laws : Evaluates) where
    proof_fee : (x : ℕ) → x < 2 ^ 64 → f.eval proof_size_to_fee x ≡ 5000 * x
    unfolding proof_size_to_fee
    proof_fee x lt = laws.whole cents 20000 x (omega arith) lt (omega arith) refl

    weight_to_fee_grows :
        (v w : Weight)
        → v.ref_time ≤ w.ref_time
        → v.proof_size ≤ w.proof_size
        → weight_to_fee v ≤ weight_to_fee w
    unfolding weight_to_fee ref_time_to_fee proof_size_to_fee
    weight_to_fee_grows v w p q =
        let positive = laws.base_positive in
        let time = laws.grows cents (200 * f.base_ref_time) _ _ (omega (arith, positive)) p in
        let proof = laws.grows cents 20000 _ _ (omega arith) q in
        let (time_le, proof_le, _) =
          max-cases (f.eval ref_time_to_fee w.ref_time) (f.eval proof_size_to_fee w.proof_size) in
        max_le _ _ _ (le_trans time time_le) (le_trans proof proof_le)

    -- Given FRAME's evaluation of polynomials, the mainnet's fee for a weight grows with both parts
    -- of the weight, is never less than 5000 for each byte of proof, so a proof of 20 kB costs at
    -- least a cent, and is the fee of one of the two parts alone.
    pub weight_to_fee-bounds :
        (v w : Weight)
        → w.proof_size < 2 ^ 64
        → (v.ref_time ≤ w.ref_time
            → v.proof_size ≤ w.proof_size
            → weight_to_fee v ≤ weight_to_fee w)
          × (5000 * w.proof_size ≤ weight_to_fee w)
          × (20000 ≤ w.proof_size → cents ≤ weight_to_fee w)
          × ((weight_to_fee w ≡ f.eval ref_time_to_fee w.ref_time)
              ⊎ (weight_to_fee w ≡ 5000 * w.proof_size))
    unfolding weight_to_fee
    weight_to_fee-bounds v w lt =
        let time = f.eval ref_time_to_fee w.ref_time in
        let (_, proof_le, one) = max-cases time (f.eval proof_size_to_fee w.proof_size) in
        let proof = proof_fee w.proof_size lt in
        let least : 5000 * w.proof_size ≤ weight_to_fee w =
          le_trans (omega (arith, proof)) proof_le in
        (
          weight_to_fee_grows v w,
          least,
          λ enough. omega (arith, least, enough),
          elim one [ inl p ↦ inl p | inr p ↦ inr (p ∙ proof) ],
        )

-- The deposit of the mainnet is a hundredth of the relay chain's, rounded down: 20 units for an item
-- and 100 thousandths of a cent for a byte; for `u32` counts the computation stays within a `u128`,
-- and more items or bytes do not cost less.
pub mainnet_deposit-bounds :
    (items bytes items' bytes' : ℕ)
    → items < 2 ^ 32
    → bytes < 2 ^ 32
    → items' ≤ items
    → bytes' ≤ bytes
    → (items * 20 * unit + bytes * 100 * millicents < 2 ^ 128)
      × (mainnet_deposit items' bytes' ≤ mainnet_deposit items bytes)
      × (mainnet_deposit items bytes * 100 ≤ items * 20 * unit + bytes * 100 * millicents)
      × (items * 20 * unit + bytes * 100 * millicents < (mainnet_deposit items bytes + 1) * 100)
unfolding mainnet_deposit
mainnet_deposit-bounds items bytes items' bytes' hi hb li lb =
    (omega arith, omega arith, omega arith, omega arith)

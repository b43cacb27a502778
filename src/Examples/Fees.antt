-- ===== src/Examples/Fees.antt =====
-- The mainnet's fees (runtime/mainnet/src/lib.rs), with fractions in parts per billion.
use pop_node.Prelude.{ℕ, ◌+◌, ◌*◌, ◌/◌, ◌%◌, ◌≤◌, ◌<◌, ◌≡◌, ◌⊎◌, arith, List, [], ◌∷◌}
use native.Mathlib.Nat.{mul-le-mul_left, zero-div}
use pop_node.Frame.{Balance, Weight}
use pop_node.Runtime.Fees.{
  Coefficient, Polynomials, Evaluates, cents, ref_time_to_fee, weight_to_fee, weight_to_fee-bounds,
}

abbrev term : Coefficient ℕ → ℕ → Balance
term c x = c.coeff_integer * x + c.coeff_frac * x / 1000000000

abbrev eval : List (Coefficient ℕ) → ℕ → Balance
eval [] x = 0
eval (c ∷ cs) x = term c x + eval cs x

abbrev polynomials : Polynomials
polynomials = record {
  Perbill = ℕ;
  from_rational = λ p q. p * 1000000000 / q;
  eval = eval;
  base_ref_time = 125000000;
}

term_grows : (i c x y : ℕ) → x ≤ y → i * x + c * x / 1000000000 + 0 ≤ i * y + c * y / 1000000000 + 0
term_grows i c x y le = omega (arith, mul-le-mul_left i le, mul-le-mul_left c le)

term_whole : (i r q x : ℕ) → 0 < q → r ≡ 0 → i * x + r * 1000000000 / q * x / 1000000000 + 0 ≡ i * x
term_whole i r q x pos z = rw (z, zero-div q) (omega arith)

evaluates : Evaluates polynomials
evaluates = record {
  base_positive = omega arith;
  grows = λ p q x y pos le. term_grows (p / q) (p % q * 1000000000 / q) x y le;
  whole = λ p q x hp hx pos z. term_whole (p / q) (p % q) q x pos z;
}

abbrev weight : Weight
weight = record { ref_time = 1000000; proof_size = 40000 }

abbrev light : Weight
light = record { ref_time = 1000; proof_size = 0 }

weight_to_fee-bounds_example :
    (1000 ≤ 1000000
      → 0 ≤ 40000
      → weight_to_fee polynomials light ≤ weight_to_fee polynomials weight)
    × (5000 * 40000 ≤ weight_to_fee polynomials weight)
    × (20000 ≤ 40000 → cents ≤ weight_to_fee polynomials weight)
    × ((weight_to_fee polynomials weight ≡ eval (ref_time_to_fee polynomials) 1000000)
        ⊎ (weight_to_fee polynomials weight ≡ 5000 * 40000))
weight_to_fee-bounds_example = weight_to_fee-bounds polynomials evaluates light weight (omega arith)

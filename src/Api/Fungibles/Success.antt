-- ===== src/Api/Fungibles/Success.antt =====
-- When `approve` succeeds (pallets/api/src/fungibles/mod.rs).
use Prim.Native.Nat.{compare, Ordering}
use pop_node.Prelude.{
  ◌-◌, ◌≡◌, ◌⊎◌, ◌==◌, ◌&&◌, ◌||◌, ltb, if◌then◌else◌, Bool, true, false, inl, inr, Result, ok, err,
  Result-cases, Bool-cases, some, arith, refl,
}
use pop_node.Frame.{AccountId, TokenId, Balance}
use pop_node.Api.Fungibles.Types.{Assets, WeightInfo, ErrorWithPostInfo}
use pop_node.Api.Fungibles.State.{State}
use pop_node.Api.Fungibles.Calls.{
  approve, set_allowance, approve_greater, approve_less, approve_anew,
}

abbrev pub is_ok : {E A : Type 0} → Result E A → Bool
is_ok (ok _) = true
is_ok (err _) = false

pub order :
    (v c : Balance)
    → ((compare v c ≡ Ordering.eq) × (ltb c v ≡ false) × (ltb v c ≡ false))
      ⊎ (((compare v c ≡ Ordering.gt) × (ltb c v ≡ true) × (ltb v c ≡ false))
          ⊎ ((compare v c ≡ Ordering.lt) × (ltb c v ≡ false) × (ltb v c ≡ true)))
order v c = ground arith

module _ (a : Assets) (o : a.Origin) (t : TokenId) (d : AccountId) where
  -- Whether pallet-assets, in this state, lets the origin take the spender's allowance from one value
  -- to another: more is approved, and for less the approval is cancelled and what is left is approved.
  abbrev pub permits : Balance → Balance → a.State → Bool
  permits value current s =
      let cancelled = a.cancel_approval o t d s in
      if ltb current value
      then is_ok (a.approve_transfer o t d (value - current) s).0
      else if ltb value current
      then is_ok cancelled.0 && (value == 0 || is_ok (a.approve_transfer o t d value cancelled.1).0)
      else true

  -- What a result is, by whether it is permitted.
  abbrev Decided : Bool → {A : Type 0} → Result ErrorWithPostInfo A → Type 0
  Decided b {A = A} r =
      ((b ≡ true) × (x : A) × (r ≡ ok x)) ⊎ ((b ≡ false) × (x : ErrorWithPostInfo) × (r ≡ err x))

  module _ (w : WeightInfo) where
    approve_less-Decided :
        (v : Balance) (s : State a)
        → let cancelled = a.cancel_approval o t d s.assets in
          Decided
            (is_ok cancelled.0 && (v == 0 || is_ok (a.approve_transfer o t d v cancelled.1).0))
            (approve_less a w o t d v s).0
    unfolding approve_less approve_anew
    approve_less-Decided v s =
        let s₁ = (a.cancel_approval o t d s.assets).1 in
        elim (Result-cases (a.cancel_approval o t d s.assets).0) [
          | inr (x, p) ↦ rw (p, approve_less) (inr (refl, _, refl))
          | inl (u, p) ↦ elim (Bool-cases (v == 0)) [
            | inl z ↦ rw (p, z, approve_less, approve_anew) (inl (refl, _, refl))
            | inr z ↦ elim (Result-cases (a.approve_transfer o t d v s₁).0) [
              | inl (u, q) ↦ rw (p, z, q, approve_less, approve_anew) (inl (refl, _, refl))
              | inr (x, q) ↦ rw (p, z, q, approve_less, approve_anew) (inr (refl, _, refl))
            ]
          ]
        ]

    set_allowance-Decided :
        (v c : Balance) (s : State a)
        → Decided (permits v c s.assets) (set_allowance a w o t d v c s).0
    unfolding set_allowance approve_greater
    set_allowance-Decided v c s = elim (order v c) [
      | inl (e, below, above) ↦ rw (e, below, above, set_allowance) (inl (refl, _, refl))
      | inr (inl (e, below, _)) ↦
          elim (Result-cases (a.approve_transfer o t d (v - c) s.assets).0) [
            | inl (u, p) ↦ rw (e, below, p, set_allowance, approve_greater) (inl (refl, _, refl))
            | inr (x, p) ↦ rw (e, below, p, set_allowance, approve_greater) (inr (refl, _, refl))
          ]
      | inr (inr (e, below, above)) ↦ rw (e, below, above, set_allowance) (approve_less-Decided v s)
    ]

    -- An `approve` from a signed origin succeeds exactly where pallet-assets permits its calls.
    pub approve-Decided :
        (owner : AccountId) (v : Balance) (s : State a)
        → a.ensure_signed o ≡ ok owner
        → Decided (permits v (a.allowance s.assets t owner d) s.assets) (approve a w o t d v s).0
    unfolding approve
    approve-Decided owner v s signed =
        elim (set_allowance-Decided v (a.allowance s.assets t owner d) s) [
          | inl (b, r, p) ↦ rw (signed, p, approve) (inl (b, some r, refl))
          | inr (b, x, p) ↦ rw (signed, p, approve) (inr (b, x, refl))
        ]

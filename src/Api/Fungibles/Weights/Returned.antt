-- ===== src/Api/Fungibles/Weights/Returned.antt =====
-- The weights that `approve` and `decrease_allowance` return (pallets/api/src/fungibles/mod.rs), by
-- the calls of pallet-assets that they make.
use pop_node.Prelude.{
  ◌⊎◌, ◌||◌, not, true, false, ◌∙◌, ◌-◌, ◌≡◌, ◌==◌, ltb, leb, if◌then◌else◌, refl, arith, inl, inr,
  Option, some, none, ok, Result-cases, Bool-cases, ◌>>=◌, ◌>>◌, pure,
}
use pop_node.Frame.{AccountId, TokenId, Balance, Weight}
use pop_node.Api.Fungibles.Types.{Assets, WeightInfo, Event}
use pop_node.Api.Fungibles.State.{State, DispatchWithPostInfo, deposit_event}
use pop_node.Api.Fungibles.Calls.{
  approve, set_allowance, approve_greater, approve_less, approve_anew, decrease_allowance,
  decrease_by, lower_allowance,
}
use pop_node.Api.Fungibles.Success.{is_ok, order}
use pop_node.Api.Fungibles.Weights.{used, spent}

leb-cases :
    (v c : Balance)
    → ((leb v c ≡ true) × (ltb c v ≡ false)) ⊎ ((leb v c ≡ false) × (ltb c v ≡ true))
leb-cases v c = ground arith

module _ (a : Assets) (w : WeightInfo) (o : a.Origin) (t : TokenId) (d : AccountId) where
  -- Lowering an allowance to a value: one cancellation, and one approval unless the value is zero. If
  -- that approval fails, no weight is said.
  abbrev pub lowering : Balance → a.State → Option Weight
  lowering value s =
      let cancelled = a.cancel_approval o t d s in
      if not (is_ok cancelled.0) || value == 0
      then some (w.approve 0 1)
      else if is_ok (a.approve_transfer o t d value cancelled.1).0
      then some (w.approve 1 1)
      else none

  -- Taking an allowance from one value to another: nothing, one approval, or lowering it.
  abbrev pub setting : Balance → Balance → a.State → Option Weight
  setting value current s =
      if ltb value current
      then lowering value s
      else if ltb current value
      then some (w.approve 1 0)
      else some (w.approve 0 0)

  approve_less-spent :
      (v : Balance) (s : State a) → spent (approve_less a w o t d v s).0 ≡ lowering v s.assets
  unfolding approve_less approve_anew
  approve_less-spent v s =
      let s₁ = (a.cancel_approval o t d s.assets).1 in
      elim (Result-cases (a.cancel_approval o t d s.assets).0) [
        | inr (x, p) ↦ rw (p, approve_less) refl
        | inl (u, p) ↦ elim (Bool-cases (v == 0)) [
          | inl z ↦ rw (p, z, approve_less, approve_anew) refl
          | inr z ↦ elim (Result-cases (a.approve_transfer o t d v s₁).0) [
            | inl (u, q) ↦ rw (p, z, q, approve_less, approve_anew) refl
            | inr (x, q) ↦ rw (p, z, q, approve_less, approve_anew) refl
          ]
        ]
      ]

  set_allowance-spent :
      (v c : Balance) (s : State a) → spent (set_allowance a w o t d v c s).0 ≡ setting v c s.assets
  unfolding set_allowance approve_greater
  set_allowance-spent v c s = elim (order v c) [
    | inl (e, below, above) ↦ rw (e, below, above, set_allowance) refl
    | inr (inl (e, below, above)) ↦
        elim (Result-cases (a.approve_transfer o t d (v - c) s.assets).0) [
          | inl (u, p) ↦ rw (e, below, above, p, set_allowance, approve_greater) refl
          | inr (x, p) ↦ rw (e, below, above, p, set_allowance, approve_greater) refl
        ]
    | inr (inr (e, below, above)) ↦ rw (e, above, set_allowance) (approve_less-spent v s)
  ]

  then_event :
      (m : DispatchWithPostInfo a Weight) (event : Event) (s : State a)
      → used ((m >>= λ weight. deposit_event a event >> pure (some weight)) s).0 ≡ spent (m s).0
  then_event m event s = elim (Result-cases (m s).0) [
    | inl (weight, p) ↦ rw p refl
    | inr (x, p) ↦ rw p refl
  ]

  -- From a signed origin, the weight that `approve` says it used, successful or not, is that of one
  -- approval where it raises the allowance, of one cancellation where it fails to cancel it or
  -- lowers it to zero, of both where it lowers it to another value, and of neither where the allowance
  -- stays; it says none where an approval after a cancellation fails. `decrease_allowance` says the
  -- weight of neither for zero, none for more than the allowance, and else that of lowering it.
  pub approve-used :
      (owner : AccountId) (v : Balance) (s : State a)
      → a.ensure_signed o ≡ ok owner
      → let c = a.allowance s.assets t owner d in
        (used (approve a w o t d v s).0 ≡ setting v c s.assets)
        × (used (decrease_allowance a w o t d v s).0 ≡ (
            if v == 0
            then some (w.approve 0 0)
            else if ltb c v
            then none
            else lowering (c - v) s.assets))
  unfolding approve decrease_allowance decrease_by lower_allowance
  approve-used owner v s signed =
      let c = a.allowance s.assets t owner d in
      (
        rw (signed, approve)
            (then_event (set_allowance a w o t d v c) (Event.approval t owner d v) s
              ∙ set_allowance-spent v c s),
        elim (Bool-cases (v == 0)) [
          | inl z ↦ rw (signed, z, decrease_allowance) refl
          | inr z ↦ elim (leb-cases v c) [
            | inr (short, less) ↦ rw (signed, z, short, less, decrease_allowance, decrease_by) refl
            | inl (enough, more) ↦
                rw (signed, z, enough, more, decrease_allowance, decrease_by)
                  (then_event (approve_less a w o t d (c - v)) (Event.approval t owner d (c - v)) s
                    ∙ approve_less-spent (c - v) s)
          ]
        ],
      )

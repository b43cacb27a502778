-- ===== src/Api/Fungibles/Isolation.antt =====
-- What the functions that change one allowance leave alone (pallets/api/src/fungibles/mod.rs).
use pop_node.Prelude.{
  ◌-◌, ◌≡◌, inl, inr, ok, arith, Option, Result-cases, Bool-cases, leb, ◌==◌, ap, sym, ◌∙◌,
  >>=-eq-ok,
}
use pop_node.Frame.{AccountId, TokenId, Balance, Weight}
use pop_node.Api.Fungibles.Types.{Assets, WeightInfo}
use pop_node.Api.Fungibles.State.{State}
use pop_node.Api.Fungibles.Calls.{
  approve, set_allowance, approve_greater, approve_less, approve_anew, increase_allowance,
  decrease_allowance, decrease_by, lower_allowance,
}
use pop_node.Api.Fungibles.Allowance.{ApprovalLaws, Elsewhere, compare-cases}

module _ (a : Assets) (w : WeightInfo) (laws : ApprovalLaws a) where
  module _ (o : a.Origin) (t : TokenId) (d : AccountId) (owner : AccountId)
      (signed : a.ensure_signed o ≡ ok owner) (t' : TokenId) (owner' d' : AccountId)
      (apart : Elsewhere t owner d t' owner' d') where
    abbrev pub other : State a → Balance
    other s = a.allowance s.assets t' owner' d'

    approve_greater-other :
        (v c : Balance) (s : State a) {r : Weight} {s' : State a}
        → approve_greater a w o t d v c s ≡ (ok r, s')
        → other s' ≡ other s
    unfolding approve_greater
    approve_greater-other v c s h =
        elim (Result-cases (a.approve_transfer o t d (v - c) s.assets).0) [
          | inl (tt, p) ↦ ground (
            arith,
            laws.approve_elsewhere o t d (v - c) s.assets owner t' owner' d' signed p apart,
          )
          | inr (x, p) ↦ ground arith
        ]

    approve_anew-other :
        (v : Balance) (s : State a) {r : Weight} {s' : State a}
        → approve_anew a w o t d v s ≡ (ok r, s')
        → other s' ≡ other s
    unfolding approve_anew
    approve_anew-other v s h = elim (Result-cases (a.approve_transfer o t d v s.assets).0) [
      | inl (tt, p) ↦
          ground (arith, laws.approve_elsewhere o t d v s.assets owner t' owner' d' signed p apart)
      | inr (x, p) ↦ ground arith
    ]

    approve_less-other :
        (v : Balance) (s : State a) {r : Weight} {s' : State a}
        → approve_less a w o t d v s ≡ (ok r, s')
        → other s' ≡ other s
    unfolding approve_less
    approve_less-other v s h =
        let s₁ : State a = record s { assets = (a.cancel_approval o t d s.assets).1 } in
        elim (Result-cases (a.cancel_approval o t d s.assets).0) [
          | inl (tt, p) ↦
              approve_anew-other v s₁ (rw p at h)
              ∙ laws.cancel_elsewhere o t d s.assets owner t' owner' d' signed p apart
          | inr (x, p) ↦ ground arith
        ]

    set_allowance-other :
        (v c : Balance) (s : State a) {r : Weight} {s' : State a}
        → set_allowance a w o t d v c s ≡ (ok r, s')
        → other s' ≡ other s
    unfolding set_allowance
    set_allowance-other v c s h = elim (compare-cases v c) [
      | inl (e, _) ↦ ap (λ x. other x.1) (sym (rw (e, set_allowance) at h))
      | inr (inl (e, _)) ↦ approve_greater-other v c s (rw (e, set_allowance) at h)
      | inr (inr e) ↦ approve_less-other v s (rw (e, set_allowance) at h)
    ]

    -- Where pallet-assets keeps its laws on approvals, an `approve` from a signed origin that
    -- succeeds changes no other allowance: not of another token, not of another owner and not of
    -- another spender.
    pub approve-other :
        (v : Balance) (s : State a) {r : Option Weight} {s' : State a}
        → approve a w o t d v s ≡ (ok r, s')
        → other s' ≡ other s
    unfolding approve
    approve-other v s h =
        let c = a.allowance s.assets t owner d in
        let (r, p, q) = >>=-eq-ok (set_allowance a w o t d v c) _ s (rw signed at h) in
        ap (λ x. other x.1) (sym q)
        ∙ set_allowance-other v c s (λ i. (p i, (set_allowance a w o t d v c s).1))

    lower_allowance-other :
        (v : Balance) (s : State a) {r : Option Weight} {s' : State a}
        → lower_allowance a w o t owner d v s ≡ (ok r, s')
        → other s' ≡ other s
    unfolding lower_allowance
    lower_allowance-other v s h =
        let (r, p, q) = >>=-eq-ok (approve_less a w o t d v) _ s h in
        ap (λ x. other x.1) (sym q)
        ∙ approve_less-other v s (λ i. (p i, (approve_less a w o t d v s).1))

    -- Where pallet-assets keeps its laws on approvals, a `decrease_allowance` from a signed origin
    -- that succeeds changes no other allowance.
    pub decrease_allowance-other :
        (v : Balance) (s : State a) {r : Option Weight} {s' : State a}
        → decrease_allowance a w o t d v s ≡ (ok r, s')
        → other s' ≡ other s
    unfolding decrease_allowance decrease_by
    decrease_allowance-other v s h = elim (Bool-cases (v == 0)) [
      | inl z ↦ ground (arith, signed)
      | inr z ↦ elim (Bool-cases (leb v (a.allowance s.assets t owner d))) [
        | inl enough ↦
            lower_allowance-other (a.allowance s.assets t owner d - v) s
              (rw (signed, z, enough) at h)
        | inr short ↦ ground (arith, signed)
      ]
    ]

    -- Where pallet-assets keeps its laws on approvals, an `increase_allowance` from a signed origin
    -- that succeeds changes no other allowance.
    pub increase_allowance-other :
        (v : Balance) (s : State a) {r : Option Weight} {s' : State a}
        → increase_allowance a w o t d v s ≡ (ok r, s')
        → other s' ≡ other s
    unfolding increase_allowance
    increase_allowance-other v s h = elim (Result-cases (a.approve_transfer o t d v s.assets).0) [
      | inl (tt, p) ↦
          ground (
            arith,
            signed,
            laws.approve_elsewhere o t d v s.assets owner t' owner' d' signed p apart,
          )
      | inr (x, p) ↦ ground (arith, signed)
    ]

-- ===== src/Api/Fungibles/Allowance.antt =====
-- What the functions that change allowances promise (pallets/api/src/fungibles/mod.rs).
use Prim.Native.Nat.{compare, Ordering}
use pop_node.Prelude.{
  some, ℕ, ◌+◌, ◌-◌, ◌≤◌, ◌<◌, ◌≡◌, ◌≢◌, ◌⊎◌, inl, inr, refl, ap, sym, ◌∙◌, ==_ne, leb, ◌∷◌, Option,
  none, ok, err, arith, Result-cases, Bool-cases, >>=-eq-ok,
}
use pop_node.Frame.{AccountId, TokenId, Balance, Weight}
use pop_node.Api.Fungibles.Types.{Assets, WeightInfo, Event}
use pop_node.Api.Fungibles.State.{State}
use pop_node.Api.Fungibles.Calls.{
  approve, set_allowance, approve_greater, approve_less, approve_anew, increase_allowance,
  decrease_allowance, decrease_by, lower_allowance,
}

pub compare-cases :
    (x y : ℕ)
    → ((compare x y ≡ Ordering.eq) × (y ≡ x))
      ⊎ (((compare x y ≡ Ordering.gt) × (y ≤ x)) ⊎ (compare x y ≡ Ordering.lt))
compare-cases x y = ground arith

-- Another token, another owner or another spender.
abbrev pub Elsewhere : TokenId → AccountId → AccountId → TokenId → AccountId → AccountId → Type 0
Elsewhere t owner d t' owner' d' = (t' ≢ t) ⊎ ((owner' ≢ owner) ⊎ (d' ≢ d))

-- What pallet-assets documents: `approve_transfer` adds to the allowance of the origin's account,
-- and `cancel_approval` removes it; neither touches the allowance of another token, owner or spender.
pub record ApprovalLaws (a : Assets) : Type 0 where
  pub approve_adds :
      (o : a.Origin) (t : TokenId) (d : AccountId) (v : Balance) (s : a.State) (owner : AccountId)
      → a.ensure_signed o ≡ ok owner
      → (a.approve_transfer o t d v s).0 ≡ ok tt
      → a.allowance (a.approve_transfer o t d v s).1 t owner d ≡ a.allowance s t owner d + v
  pub cancel_clears :
      (o : a.Origin) (t : TokenId) (d : AccountId) (s : a.State) (owner : AccountId)
      → a.ensure_signed o ≡ ok owner
      → (a.cancel_approval o t d s).0 ≡ ok tt
      → a.allowance (a.cancel_approval o t d s).1 t owner d ≡ 0
  pub approve_elsewhere :
      (o : a.Origin) (t : TokenId) (d : AccountId) (v : Balance) (s : a.State) (owner : AccountId)
      (t' : TokenId) (owner' d' : AccountId)
      → a.ensure_signed o ≡ ok owner
      → (a.approve_transfer o t d v s).0 ≡ ok tt
      → Elsewhere t owner d t' owner' d'
      → a.allowance (a.approve_transfer o t d v s).1 t' owner' d' ≡ a.allowance s t' owner' d'
  pub cancel_elsewhere :
      (o : a.Origin) (t : TokenId) (d : AccountId) (s : a.State) (owner : AccountId) (t' : TokenId)
      (owner' d' : AccountId)
      → a.ensure_signed o ≡ ok owner
      → (a.cancel_approval o t d s).0 ≡ ok tt
      → Elsewhere t owner d t' owner' d'
      → a.allowance (a.cancel_approval o t d s).1 t' owner' d' ≡ a.allowance s t' owner' d'

module _ (a : Assets) (w : WeightInfo) (laws : ApprovalLaws a) where
  module _ (o : a.Origin) (t : TokenId) (d : AccountId) (owner : AccountId)
      (signed : a.ensure_signed o ≡ ok owner) where
    abbrev allowed : State a → Balance
    allowed s = a.allowance s.assets t owner d

    approve_greater-allowed :
        (v c : Balance) (s : State a) {r : Weight} {s' : State a}
        → c ≤ v
        → allowed s ≡ c
        → approve_greater a w o t d v c s ≡ (ok r, s')
        → (allowed s' ≡ v) × (s'.events ≡ s.events)
    unfolding approve_greater
    approve_greater-allowed v c s le e h =
        elim (Result-cases (a.approve_transfer o t d (v - c) s.assets).0) [
          | inl (tt, p) ↦ ground (arith, laws.approve_adds o t d (v - c) s.assets owner)
          | inr (x, p) ↦ ground arith
        ]

    approve_anew-allowed :
        (v : Balance) (s : State a) {r : Weight} {s' : State a}
        → allowed s ≡ 0
        → approve_anew a w o t d v s ≡ (ok r, s')
        → (allowed s' ≡ v) × (s'.events ≡ s.events)
    unfolding approve_anew
    approve_anew-allowed v s e h = elim (Result-cases (a.approve_transfer o t d v s.assets).0) [
      | inl (tt, p) ↦ ground (arith, laws.approve_adds o t d v s.assets owner)
      | inr (x, p) ↦ ground arith
    ]

    approve_less-allowed :
        (v : Balance) (s : State a) {r : Weight} {s' : State a}
        → approve_less a w o t d v s ≡ (ok r, s')
        → (allowed s' ≡ v) × (s'.events ≡ s.events)
    unfolding approve_less
    approve_less-allowed v s h =
        let s₁ : State a = record s { assets = (a.cancel_approval o t d s.assets).1 } in
        elim (Result-cases (a.cancel_approval o t d s.assets).0) [
          | inl (tt, p) ↦
              approve_anew-allowed v s₁ (laws.cancel_clears o t d s.assets owner signed p)
                (rw p at h)
          | inr (x, p) ↦ ground arith
        ]

    unchanged :
        {v : Balance} {s s' : State a}
        → s ≡ s'
        → allowed s ≡ v
        → (allowed s' ≡ v) × (s'.events ≡ s.events)
    unchanged p e = rw (← p) (e, refl)

    deposited :
        {v : Balance} (s : State a) {s₁ s' : State a}
        → allowed s₁ ≡ v
        → s₁.events ≡ s.events
        → record s₁ { events = Event.approval t owner d v ∷ s₁.events } ≡ s'
        → (allowed s' ≡ v) × (s'.events ≡ Event.approval t owner d v ∷ s.events)
    deposited {v = v} s sets quiet p = rw (← p) (sets, ap (◌∷◌ (Event.approval t owner d v)) quiet)

    set_allowance-allowed :
        (v : Balance) (s : State a) {r : Weight} {s' : State a}
        → set_allowance a w o t d v (allowed s) s ≡ (ok r, s')
        → (allowed s' ≡ v) × (s'.events ≡ s.events)
    unfolding set_allowance
    set_allowance-allowed v s h = elim (compare-cases v (allowed s)) [
      | inl (c, e) ↦ unchanged (ap (λ x. x.1) (rw (c, set_allowance) at h)) e
      | inr (inl (c, le)) ↦
          approve_greater-allowed v (allowed s) s le refl (rw (c, set_allowance) at h)
      | inr (inr c) ↦ approve_less-allowed v s (rw (c, set_allowance) at h)
    ]

    -- Where pallet-assets keeps its laws on approvals, an `approve` from a signed origin that
    -- succeeds leaves the spender with exactly the value, whatever the allowance was before, and
    -- deposits one event, which names the value.
    pub approve_sets :
        (v : Balance) (s : State a) {r : Option Weight} {s' : State a}
        → approve a w o t d v s ≡ (ok r, s')
        → (allowed s' ≡ v) × (s'.events ≡ Event.approval t owner d v ∷ s.events)
    unfolding approve
    approve_sets v s h =
        let (r, p, q) = >>=-eq-ok (set_allowance a w o t d v (allowed s)) _ s (rw signed at h) in
        let (sets, quiet) =
          set_allowance-allowed v s (λ i. (p i, (set_allowance a w o t d v (allowed s) s).1)) in
        deposited s sets quiet (ap (λ x. x.1) q)

    -- Where pallet-assets keeps its laws on approvals, an `increase_allowance` from a signed origin
    -- that succeeds adds the value, and its one event names the new allowance.
    pub increase_allowance_adds :
        (v : Balance) (s : State a) {r : Option Weight} {s' : State a}
        → increase_allowance a w o t d v s ≡ (ok r, s')
        → (allowed s' ≡ allowed s + v)
          × (s'.events ≡ Event.approval t owner d (allowed s + v) ∷ s.events)
    unfolding increase_allowance
    increase_allowance_adds v s h = elim (Result-cases (a.approve_transfer o t d v s.assets).0) [
      | inl (tt, p) ↦ ground (arith, signed, laws.approve_adds o t d v s.assets owner)
      | inr (x, p) ↦ ground (arith, signed)
    ]

    lower_allowance-allowed :
        (v : Balance) (s : State a) {r : Option Weight} {s' : State a}
        → lower_allowance a w o t owner d v s ≡ (ok r, s')
        → (allowed s' ≡ v) × (s'.events ≡ Event.approval t owner d v ∷ s.events)
    unfolding lower_allowance
    lower_allowance-allowed v s h =
        let (r, p, q) = >>=-eq-ok (approve_less a w o t d v) _ s h in
        let (sets, quiet) = approve_less-allowed v s (λ i. (p i, (approve_less a w o t d v s).1)) in
        deposited s sets quiet (ap (λ x. x.1) q)

    -- Where pallet-assets keeps its laws on approvals, a `decrease_allowance` by more than zero
    -- from a signed origin that succeeds lowers the allowance by exactly the value, and its one
    -- event names the new allowance.
    pub decrease_allowance_subtracts :
        (v : Balance) (s : State a) {r : Option Weight} {s' : State a}
        → 0 < v
        → decrease_allowance a w o t d v s ≡ (ok r, s')
        → (allowed s' + v ≡ allowed s)
          × (s'.events ≡ Event.approval t owner d (allowed s') ∷ s.events)
    unfolding decrease_allowance decrease_by
    decrease_allowance_subtracts v s pos h = elim (Bool-cases (leb v (allowed s))) [
      | inl enough ↦
          let (sets, event) =
            lower_allowance-allowed (allowed s - v) s
              (rw (signed, ==_ne v 0 (λ z. absurd (omega arith)), enough) at h) in
          (
            (ground (arith, sets)),
            event ∙ ap (λ x. Event.approval t owner d x ∷ s.events) (sym sets),
          )
      | inr short ↦ ground (arith, signed)
    ]

    -- A decrease from a signed origin by more than the allowance fails with `Unapproved` and
    -- changes nothing.
    pub decrease_allowance_unapproved :
        (v : Balance) (s : State a)
        → allowed s < v
        → decrease_allowance a w o t d v s
          ≡ (err (record { actual_weight = none; error = a.unapproved }), s)
    unfolding decrease_allowance decrease_by
    decrease_allowance_unapproved v s short = ground (arith, signed)

    -- Where pallet-assets keeps its laws on approvals, a `decrease_allowance` from a signed origin by
    -- zero succeeds and changes nothing; by more than the allowance it fails with `Unapproved` and
    -- changes nothing; and one by more than zero that succeeds lowers the allowance by exactly the
    -- value, with one event, which names the new allowance.
    pub decrease_allowance-outcome :
        (v : Balance) (s : State a)
        → (decrease_allowance a w o t d 0 s ≡ (ok (some (w.approve 0 0)), s))
          × (allowed s < v
              → decrease_allowance a w o t d v s
                ≡ (err (record { actual_weight = none; error = a.unapproved }), s))
          × ((r : Option Weight) (s' : State a)
              → 0 < v
              → decrease_allowance a w o t d v s ≡ (ok r, s')
              → (allowed s' + v ≡ allowed s)
                × (s'.events ≡ Event.approval t owner d (allowed s') ∷ s.events))
    unfolding decrease_allowance
    decrease_allowance-outcome v s = (
      ground (arith, signed),
      decrease_allowance_unapproved v s,
      λ r s' pos h. decrease_allowance_subtracts v s pos h,
    )

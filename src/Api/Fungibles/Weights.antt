-- ===== src/Api/Fungibles/Weights.antt =====
-- The weights that the functions return against the weights that are declared for them
-- (pallets/api/src/fungibles/mod.rs).
pub mod Declared
pub mod Measured
pub mod Returned
use pop_node.Prelude.{
  ℕ, ◌-◌, ◌≤◌, ◌==◌, leb, arith, ◌>>=◌, ◌>>◌, pure, inl, inr, Option, none, some, Result, ok, err,
  Result-cases, Bool-cases,
}
use pop_node.Frame.{AccountId, TokenId, Balance, Weight}
use pop_node.Api.Fungibles.Types.{Assets, WeightInfo, ErrorWithPostInfo, Event}
use pop_node.Api.Fungibles.State.{State, DispatchWithPostInfo, deposit_event}
use pop_node.Api.Fungibles.Calls.{
  approve, set_allowance, approve_greater, approve_less, approve_anew, decrease_allowance,
  decrease_by, lower_allowance,
}
use pop_node.Api.Fungibles.Allowance.{compare-cases}

-- The weight that a call says it used, successful or not.
abbrev pub used : Result ErrorWithPostInfo (Option Weight) → Option Weight
used (ok weight) = weight
used (err x) = x.actual_weight

-- The same of a weight that is not yet optional.
abbrev pub spent : Result ErrorWithPostInfo Weight → Option Weight
spent (ok weight) = some weight
spent (err x) = x.actual_weight

abbrev pub AtMost : Weight → Option Weight → Type 0
AtMost limit none = Unit {0}
AtMost limit (some weight) =
    (weight.ref_time ≤ limit.ref_time) × (weight.proof_size ≤ limit.proof_size)

-- What the generated weights are: fewer approvals or cancellations do not weigh more.
pub record ApproveWeighs (w : WeightInfo) : Type 0 where
  pub at_most :
      (approvals cancellations : ℕ)
      → approvals ≤ 1
      → cancellations ≤ 1
      → AtMost (w.approve 1 1) (some (w.approve approvals cancellations))

module _ (a : Assets) (w : WeightInfo) (laws : ApproveWeighs w) (o : a.Origin) (t : TokenId)
    (d : AccountId) where
  none_of : AtMost (w.approve 1 1) (some (w.approve 0 0))
  none_of = laws.at_most 0 0 (omega arith) (omega arith)

  approval : AtMost (w.approve 1 1) (some (w.approve 1 0))
  approval = laws.at_most 1 0 (omega arith) (omega arith)

  cancellation : AtMost (w.approve 1 1) (some (w.approve 0 1))
  cancellation = laws.at_most 0 1 (omega arith) (omega arith)

  both : AtMost (w.approve 1 1) (some (w.approve 1 1))
  both = laws.at_most 1 1 (omega arith) (omega arith)

  approve_less-AtMost :
      (v : Balance) (s : State a) → AtMost (w.approve 1 1) (spent (approve_less a w o t d v s).0)
  unfolding approve_less approve_anew
  approve_less-AtMost v s =
      let s₁ = (a.cancel_approval o t d s.assets).1 in
      elim (Result-cases (a.cancel_approval o t d s.assets).0) [
        | inr (x, p) ↦ rw (p, approve_less) cancellation
        | inl (u, p) ↦ elim (Bool-cases (v == 0)) [
          | inl z ↦ rw (p, z, approve_less, approve_anew) cancellation
          | inr z ↦ elim (Result-cases (a.approve_transfer o t d v s₁).0) [
            | inl (u, q) ↦ rw (p, z, q, approve_less, approve_anew) both
            | inr (x, q) ↦ rw (p, z, q, approve_less, approve_anew) tt
          ]
        ]
      ]

  approve_greater-AtMost :
      (v c : Balance) (s : State a)
      → AtMost (w.approve 1 1) (spent (approve_greater a w o t d v c s).0)
  unfolding approve_greater
  approve_greater-AtMost v c s = elim (Result-cases (a.approve_transfer o t d (v - c) s.assets).0) [
    | inl (u, q) ↦ rw (q, approve_greater) approval
    | inr (x, q) ↦ rw (q, approve_greater) approval
  ]

  set_allowance-AtMost :
      (v c : Balance) (s : State a)
      → AtMost (w.approve 1 1) (spent (set_allowance a w o t d v c s).0)
  unfolding set_allowance
  set_allowance-AtMost v c s = elim (compare-cases v c) [
    | inl (e, _) ↦ rw (e, set_allowance) none_of
    | inr (inl (e, _)) ↦ rw (e, set_allowance) (approve_greater-AtMost v c s)
    | inr (inr e) ↦ rw (e, set_allowance) (approve_less-AtMost v s)
  ]

  -- Depositing an event afterwards changes no weight.
  then_event :
      (m : DispatchWithPostInfo a Weight) (event : Event) (s : State a)
      → AtMost (w.approve 1 1) (spent (m s).0)
      → AtMost
          (w.approve 1 1)
          (used ((m >>= λ weight. deposit_event a event >> pure (some weight)) s).0)
  then_event m event s h = elim (Result-cases (m s).0) [
    | inl (weight, p) ↦ rw p (rw p at h)
    | inr (x, p) ↦ rw p (rw p at h)
  ]

  -- Where fewer approvals do not weigh more, an `approve`, successful or not, says that it used at
  -- most the weight that is declared for it, if it says so at all.
  pub approve-AtMost :
      (v : Balance) (s : State a) → AtMost (w.approve 1 1) (used (approve a w o t d v s).0)
  unfolding approve
  approve-AtMost v s = elim (Result-cases (a.ensure_signed o)) [
    | inr (x, p) ↦ rw (p, approve) none_of
    | inl (owner, p) ↦
        let c = a.allowance s.assets t owner d in
        rw (p, approve)
          (then_event (set_allowance a w o t d v c) (Event.approval t owner d v) s
            (set_allowance-AtMost v c s))
  ]

  -- Where fewer approvals do not weigh more, a `decrease_allowance`, successful or not, says that it
  -- used at most the weight that is declared for it, if it says so at all.
  pub decrease_allowance-AtMost :
      (v : Balance) (s : State a)
      → AtMost (w.approve 1 1) (used (decrease_allowance a w o t d v s).0)
  unfolding decrease_allowance decrease_by lower_allowance
  decrease_allowance-AtMost v s = elim (Result-cases (a.ensure_signed o)) [
    | inr (x, p) ↦ rw (p, decrease_allowance) none_of
    | inl (owner, p) ↦ elim (Bool-cases (v == 0)) [
      | inl z ↦ rw (p, z, decrease_allowance) none_of
      | inr z ↦
          let c = a.allowance s.assets t owner d in
          elim (Bool-cases (leb v c)) [
            | inr short ↦ rw (p, z, short, decrease_allowance, decrease_by) tt
            | inl enough ↦
                rw (p, z, enough, decrease_allowance, decrease_by)
                  (then_event (approve_less a w o t d (c - v)) (Event.approval t owner d (c - v)) s
                    (approve_less-AtMost (c - v) s))
          ]
    ]
  ]

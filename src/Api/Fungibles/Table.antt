-- ===== src/Api/Fungibles/Table.antt =====
-- The calls that adjust allowances (pallets/api/src/fungibles/mod.rs) against an abstract table of
-- allowances, over any sequence of them.
use pop_node.Prelude.{
  ◌+◌, ◌-◌, ◌≡◌, ◌⊎◌, inl, inr, refl, sym, ap, ◌∙◌, arith, ◌==◌, ◌&&◌, Bool, Bool-cases, true,
  false, List, [], ◌∷◌, Option, ok, err, Result-cases, if◌then◌else◌,
}
use mathlib.Core.Path.{fun_ext}
use pop_node.Frame.{AccountId, TokenId, Balance, Weight}
use pop_node.Api.Fungibles.Types.{Assets, WeightInfo, Call}
use pop_node.Api.Fungibles.State.{State}
use pop_node.Api.Fungibles.Dispatch.{dispatch}
use pop_node.Api.Fungibles.Calls.{decrease_allowance}
use pop_node.Api.Fungibles.Allowance.{
  ApprovalLaws, Elsewhere, approve_sets, increase_allowance_adds, decrease_allowance_subtracts,
}
use pop_node.Api.Fungibles.Isolation.{
  approve-other, increase_allowance-other, decrease_allowance-other,
}

-- The three kinds of adjustment.
pub data Kind : Type 0 where
  approve increase decrease : Kind

-- An account adjusts what a spender may take of a token.
pub record Adjustment : Type 0 where
  pub kind : Kind
  pub who : AccountId
  pub token : TokenId
  pub spender : AccountId
  pub value : Balance

abbrev of_kind : Kind → AccountId → TokenId → AccountId → Balance → Adjustment
of_kind kind who t d v = record { kind = kind; who = who; token = t; spender = d; value = v }

-- The call that makes an adjustment.
abbrev pub call_of : Adjustment → Call
call_of x = elim x.kind [
  | approve ↦ Call.approve x.token x.spender x.value
  | increase ↦ Call.increase_allowance x.token x.spender x.value
  | decrease ↦ Call.decrease_allowance x.token x.spender x.value
]

abbrev pub Table : Type 0
Table = TokenId → AccountId → AccountId → Balance

-- The entry that an adjustment leaves.
abbrev entry : Kind → Balance → Balance → Balance
entry approve value current = value
entry increase value current = current + value
entry decrease value current = current - value

abbrev concerns : Adjustment → TokenId → AccountId → AccountId → Bool
concerns x t owner d = t == x.token && owner == x.who && d == x.spender

-- An adjustment of the table: one entry changes.
unfoldable pub adjust : Adjustment → Table → Table
adjust x f t owner d =
    if concerns x t owner d then entry x.kind x.value (f t owner d) else f t owner d

-- All of them, in order.
unfoldable pub replay : List Adjustment → Table → Table
unfolding adjust
replay [] f = f
replay (x ∷ xs) f = replay xs (adjust x f)

module _ (a : Assets) (w : WeightInfo) (signed : AccountId → a.Origin) where
  abbrev pub table : State a → Table
  table s = a.allowance s.assets

  -- The adjustments as calls, each from its account, where a failure is rolled back: which of them
  -- succeeded, and the state.
  unfoldable pub run : List Adjustment → State a → List Adjustment × State a
  run [] s = ([], s)
  run (x ∷ xs) s =
      let (r, t) = dispatch a w (signed x.who) (call_of x) s in
      let done = run xs t in
      let skipped = run xs s in elim r [ ok weight ↦ (x ∷ done.0, done.1) | err failure ↦ skipped ]

  module _ (laws : ApprovalLaws a)
      (own : (who : AccountId) → a.ensure_signed (signed who) ≡ ok who) where
    concerned :
        (x : Adjustment) (t : TokenId) (owner d : AccountId)
        → ((concerns x t owner d ≡ true) × (t ≡ x.token) × (owner ≡ x.who) × (d ≡ x.spender))
          ⊎ ((concerns x t owner d ≡ false) × Elsewhere x.token x.who x.spender t owner d)
    concerned x t owner d = elim (Bool-cases (t == x.token)) [
      | inr p ↦ inr (ground arith, inl (ground arith))
      | inl p ↦ elim (Bool-cases (owner == x.who)) [
        | inr q ↦ inr (ground arith, inr (inl (ground arith)))
        | inl q ↦ elim (Bool-cases (d == x.spender)) [
          | inr r ↦ inr (ground arith, inr (inr (ground arith)))
          | inl r ↦ inl (ground arith, ground arith, ground arith, ground arith)
        ]
      ]
    ]

    module _ (who : AccountId) (t : TokenId) (d : AccountId) (v : Balance) (s : State a)
        {r : Option Weight} {s' : State a} where
      -- The entry that an adjustment is about, once it has succeeded.
      dispatch-entry :
          (kind : Kind)
          → dispatch a w (signed who) (call_of (of_kind kind who t d v)) s ≡ (ok r, s')
          → table s' t who d ≡ entry kind v (table s t who d)
      unfolding dispatch decrease_allowance
      dispatch-entry approve h = (approve_sets a w laws (signed who) t d who (own who) v s h).0
      dispatch-entry increase h =
          (increase_allowance_adds a w laws (signed who) t d who (own who) v s h).0
      dispatch-entry decrease h = elim (Bool-cases (v == 0)) [
        | inl z ↦
            let kept = ap (λ x. x.1) (rw (own who, z, decrease_allowance) at h) in
            ap (λ x. table x t who d) (sym kept) ∙ ground (arith, z)
        | inr z ↦
            let lowered =
              (decrease_allowance_subtracts a w laws (signed who) t d who (own who) v s
                (ground arith) h).0 in
            omega (arith, lowered)
      ]

      -- Any other entry.
      dispatch-Elsewhere :
          (kind : Kind) (t' : TokenId) (owner d' : AccountId)
          → dispatch a w (signed who) (call_of (of_kind kind who t d v)) s ≡ (ok r, s')
          → Elsewhere t who d t' owner d'
          → table s' t' owner d' ≡ table s t' owner d'
      unfolding dispatch
      dispatch-Elsewhere approve t' owner d' h apart =
          approve-other a w laws (signed who) t d who (own who) t' owner d' apart v s h
      dispatch-Elsewhere increase t' owner d' h apart =
          increase_allowance-other a w laws (signed who) t d who (own who) t' owner d' apart v s h
      dispatch-Elsewhere decrease t' owner d' h apart =
          decrease_allowance-other a w laws (signed who) t d who (own who) t' owner d' apart v s h

    -- One adjustment that succeeds adjusts the table.
    dispatch-adjust :
        (x : Adjustment) (s : State a) {r : Option Weight} {s' : State a}
        → dispatch a w (signed x.who) (call_of x) s ≡ (ok r, s')
        → (t : TokenId) (owner d : AccountId) → table s' t owner d ≡ adjust x (table s) t owner d
    unfolding adjust
    dispatch-adjust x s h t owner d = elim (concerned x t owner d) [
      | inl (p, pt, po, pd) ↦
          rw (p, pt, po, pd) (dispatch-entry x.who x.token x.spender x.value s x.kind h)
      | inr (p, apart) ↦
          rw p (dispatch-Elsewhere x.who x.token x.spender x.value s x.kind t owner d h apart)
    ]

    -- Where pallet-assets keeps its laws on approvals, over any sequence of calls of `approve`,
    -- `increase_allowance` and `decrease_allowance`, each from its account's signed origin and with
    -- every failure rolled back, the allowances are the table of the adjustments that succeeded, in
    -- their order.
    pub run-replay :
        (xs : List Adjustment) (s : State a) → table (run xs s).1 ≡ replay (run xs s).0 (table s)
    unfolding run replay
    run-replay [] s = refl
    run-replay (x ∷ xs) s =
        let t = (dispatch a w (signed x.who) (call_of x) s).1 in
        elim (Result-cases (dispatch a w (signed x.who) (call_of x) s).0) [
          | inr (failure, p) ↦ rw (p, run) (run-replay xs s)
          | inl (weight, p) ↦
              rw (p, run)
                (run-replay xs t
                  ∙ ap (replay (run xs t).0) (
                      fun_ext
                        λ i. fun_ext λ j. fun_ext λ k. dispatch-adjust x s (λ n. (p n, t)) i j k))
        ]

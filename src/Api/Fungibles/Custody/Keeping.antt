-- ===== src/Api/Fungibles/Custody/Keeping.antt =====
-- An account that signs no call keeps its tokens, over any sequence of calls
-- (pallets/api/src/fungibles/mod.rs).
use mathlib.Core.Path.{subst}
use pop_node.Prelude.{
  ◌+◌, ◌≤◌, ◌≡◌, ◌≢◌, ◌==◌, inl, inr, arith, Bool-cases, List, ◌∷◌, none, some, ok, Exec, refl, sym,
  ◌∙◌,
}
use pop_node.Frame.{AccountId, TokenId, Balance, DispatchError}
use pop_node.Api.Fungibles.Types.{Assets, WeightInfo, Call, Event}
use pop_node.Api.Fungibles.State.{State}
use pop_node.Api.Fungibles.Running.{Sustains, AllFrom, moved, announced, run}
use pop_node.Api.Fungibles.Running.Invariant.{run-Preserves}
use pop_node.Api.Fungibles.Allowance.{ApprovalLaws}
use pop_node.Api.Fungibles.Balances.{Balances, credit, debit, KeepsBalances, BalanceLaws}
use pop_node.Api.Fungibles.Custody.{
  burned_of, RaisesNone, AllowanceLaws, Stranger, Unapproved, held,
}

-- A transfer from another account, or of nothing, takes nothing from an account.
loses_nothing :
    (owner from to : AccountId) (v : Balance) (f : Balances)
    → (from ≡ owner → v ≡ 0)
    → f owner ≤ credit (some to) v (debit (some from) v f) owner
unfolding credit debit
loses_nothing owner from to v f empty = ground arith

module _ (a : Assets) (t : TokenId) (laws : BalanceLaws a t) (owner : AccountId)
    (approvals : ApprovalLaws a) (allowances : AllowanceLaws a) where
  abbrev Unheld : State a → Type 0
  Unheld s = Unapproved a t owner s

  abbrev total : State a → Balance
  total s = held a t owner s

  module _ (least : Balance) where
    Safe : State a → Type 0
    Safe s = laws.Dustless s.assets × Unheld s × (least ≤ total s)

    still :
        (m : Exec DispatchError a.State (Unit {0})) (s : State a)
        → RaisesNone a m
        → Unheld s
        → (m s.assets).0 ≡ ok tt
        → Unheld (moved a (m s.assets).1 s)
    unfolding RaisesNone
    still m s raises unapproved p d = omega (arith, raises s.assets p t owner d, unapproved d)

    kept :
        (m : Exec DispatchError a.State (Unit {0})) (s : State a)
        → KeepsBalances a t laws.Dustless m
        → Safe s
        → (m s.assets).0 ≡ ok tt
        → Unheld (moved a (m s.assets).1 s)
        → Safe (moved a (m s.assets).1 s)
    unfolding Safe KeepsBalances
    kept m s keeps (fine, unapproved, least_held) p unapproved' =
        let (fine', same) = keeps s.assets fine p in
        (fine', unapproved', omega (arith, same owner, least_held))

    -- A call that moves tokens, with its event.
    moves :
        (m : Exec DispatchError a.State (Unit {0})) (t' : TokenId) (event : Event) (s : State a)
        → RaisesNone a m
        → Safe s
        → (m s.assets).0 ≡ ok tt
        → (t' ≡ t
            → laws.Dustless (m s.assets).1
              × (total s ≤ a.balance (m s.assets).1 t owner + burned_of t owner (event ∷ s.events)))
        → (t' ≢ t
            → KeepsBalances a t laws.Dustless m
              × (burned_of t owner (event ∷ s.events) ≡ burned_of t owner s.events))
        → Safe (announced a event (moved a (m s.assets).1 s))
    unfolding Safe
    moves m t' event s raises good p here elsewhere =
        let (fine, unapproved, least_held) = good in
        let unapproved' = still m s raises unapproved p in
        elim (Bool-cases (t' == t)) [
          | inl same ↦
              let (fine', holds) = here (ground arith) in
              (fine', unapproved', omega (arith, holds, least_held))
          | inr other ↦
              let (keeps, unburned) = elsewhere (ground arith) in
              let (fine', _, holds) = kept m s keeps good p unapproved' in
              (fine', unapproved', omega (arith, holds, unburned))
        ]

    Safe-Sustains : Sustains a (Stranger a owner) Safe
    unfolding Safe burned_of credit debit
    Safe-Sustains = record {
      approve = λ o t' d v s may good p.
          let (who, signed) = allowances.approve_signed o t' d v s.assets p in
          kept (a.approve_transfer o t' d v) s (laws.approve_keeps o t' d v) good p (λ d'.
            approvals.approve_elsewhere o t' d v s.assets who t owner d' signed p
              (inr (inl (may who signed)))
            ∙ good.1 d');
      cancel = λ o t' d s may good p.
          let (who, signed) = allowances.cancel_signed o t' d s.assets p in
          kept (a.cancel_approval o t' d) s (laws.cancel_keeps o t' d) good p (λ d'.
            approvals.cancel_elsewhere o t' d s.assets who t owner d' signed p
              (inr (inl (may who signed)))
            ∙ good.1 d');
      approval = λ t' o d v s good. good;
      transfer = λ o from t' to v s may good signed p.
          moves (a.transfer_keep_alive o t' to v) t' (Event.transfer t' (some from) (some to) v) s
            (allowances.transfer_raises o t' to v) good p
            (λ q. rw q (
              let (fine, told) =
                laws.transfer_moves o from to v s.assets signed good.0 (rw q at p) in
              (
                fine,
                omega (
                  arith,
                  told owner,
                  loses_nothing owner from to v (a.balance s.assets t)
                      (λ same. absurd (may from signed (sym same))),
                ),
              )))
            (λ n. (laws.transfer_elsewhere o t' to v n, refl));
      transfer_from = λ o t' from to v s may good p.
          moves (a.transfer_approved o t' from to v) t' (Event.transfer t' (some from) (some to) v)
            s (allowances.transfer_approved_raises o t' from to v) good p
            (λ q. rw q (
              let p' = rw q at p in
              let (fine, told) = laws.transfer_approved_moves o from to v s.assets good.0 p' in
              let (d, _, covered) =
                allowances.transfer_approved_covered o t from to v s.assets p' in
              (
                fine,
                omega (
                  arith,
                  told owner,
                  loses_nothing owner from to v (a.balance s.assets t) (λ same.
                      omega (
                        arith,
                        subst (λ z. v ≤ a.allowance s.assets t z d) same covered,
                        good.1 d,
                      )),
                ),
              )))
            (λ n. (laws.transfer_approved_elsewhere o t' from to v n, refl));
      create = λ o creator t' admin m s may good p.
          kept (a.create o t' admin m) s (laws.create_keeps o t' admin m) good p
            (still (a.create o t' admin m) s (allowances.create_raises o t' admin m) good.1 p);
      start_destroy = λ o t' s may good p.
          kept (a.start_destroy o t') s (laws.start_destroy_keeps o t') good p
            (still (a.start_destroy o t') s (allowances.start_destroy_raises o t') good.1 p);
      set_metadata = λ o t' name symbol d s may good p.
          let m = a.set_metadata o t' name symbol d in
          kept m s (laws.set_metadata_keeps o t' name symbol d) good p
            (still m s (allowances.set_metadata_raises o t' name symbol d) good.1 p);
      clear_metadata = λ o t' s may good p.
          kept (a.clear_metadata o t') s (laws.clear_metadata_keeps o t') good p
            (still (a.clear_metadata o t') s (allowances.clear_metadata_raises o t') good.1 p);
      mint = λ o t' who v s may good p.
          moves (a.mint o t' who v) t' (Event.transfer t' none (some who) v) s
            (allowances.mint_raises o t' who v) good p
            (λ q. rw q (
              let (fine, told) = laws.mint_credits o who v s.assets good.0 (rw q at p) in
              (fine, ground (arith, told owner))))
            (λ n. (laws.mint_elsewhere o t' who v n, refl));
      burn = λ o t' who v s may good le p.
          moves (a.burn o t' who v) t' (Event.transfer t' (some who) none v) s
            (allowances.burn_raises o t' who v) good p
            (λ q. rw q (
              let (fine, told) =
                laws.burn_debits o who v s.assets (subst (λ z. v ≤ a.balance s.assets z who) q le)
                  good.0 (rw q at p) in
              (fine, ground (arith, told owner))))
            (λ n. (laws.burn_elsewhere o t' who v n, ground arith));
    }

  -- Where pallet-assets keeps its laws on approvals and on the balances of a token that exists with a
  -- minimum balance of 1, over any sequence of calls, failures rolled back, none of which an account
  -- signs: if no one had an allowance over the account's tokens before, no one has one after, and the
  -- account has lost no tokens but those that events say were burned.
  pub run-Unapproved :
      (w : WeightInfo) (calls : List (a.Origin × Call)) (s : State a)
      → AllFrom a (Stranger a owner) calls
      → laws.Dustless s.assets
      → Unapproved a t owner s
      → Unapproved a t owner (run a w calls s)
        × (held a t owner s ≤ held a t owner (run a w calls s))
  unfolding Safe
  run-Unapproved w calls s strangers fine unapproved =
      let (_, unapproved', holds) =
        run-Preserves a w (Stranger a owner) (Safe (total s)) (Safe-Sustains (total s)) calls s
          strangers (fine, unapproved, omega arith) in
      (unapproved', holds)

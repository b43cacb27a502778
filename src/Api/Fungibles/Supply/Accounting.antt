-- ===== src/Api/Fungibles/Supply/Accounting.antt =====
-- The supply of a token over any sequence of calls (pallets/api/src/fungibles/mod.rs).
use pop_node.Prelude.{inl, inr, arith, ◌==◌, Bool-cases, List}
use pop_node.Frame.{TokenId}
use pop_node.Api.Fungibles.Types.{Assets, WeightInfo, Call}
use pop_node.Api.Fungibles.State.{State}
use pop_node.Api.Fungibles.Running.{Sustains, run}
use pop_node.Api.Fungibles.Running.Invariant.{run-Preserves, Anyone, from_Anyone}
use pop_node.Api.Fungibles.Supply.{minted, burned, KeepsSupply, SupplyLaws, Accounted}

module _ (a : Assets) (laws : SupplyLaws a) (s₀ : State a) (t : TokenId) where
  Since : State a → Type 0
  Since s = Accounted a t s₀ s

  Since-Sustains : Sustains a (Anyone a) Since
  unfolding Since Accounted minted burned KeepsSupply
  Since-Sustains = record {
    approve =
        λ o t' d v s may good p. omega (arith, good, laws.approve_keeps o t' d v s.assets p t);
    cancel = λ o t' d s may good p. omega (arith, good, laws.cancel_keeps o t' d s.assets p t);
    approval = λ t' owner d v s good. good;
    transfer = λ o from t' to v s may good signed p.
        omega (arith, good, laws.transfer_keeps o t' to v s.assets p t);
    transfer_from = λ o t' from to v s may good p.
        omega (arith, good, laws.transfer_approved_keeps o t' from to v s.assets p t);
    create = λ o creator t' admin m s may good p.
        omega (arith, good, laws.create_keeps o t' admin m s.assets p t);
    start_destroy =
        λ o t' s may good p. omega (arith, good, laws.start_destroy_keeps o t' s.assets p t);
    set_metadata = λ o t' name symbol d s may good p.
        omega (arith, good, laws.set_metadata_keeps o t' name symbol d s.assets p t);
    clear_metadata =
        λ o t' s may good p. omega (arith, good, laws.clear_metadata_keeps o t' s.assets p t);
    mint = λ o t' who v s may good p. elim (Bool-cases (t' == t)) [
      | inl same ↦ ground (arith, good, laws.mint_adds o t' who v s.assets p)
      | inr other ↦ ground (arith, good, laws.mint_elsewhere o t' who v s.assets t (ground arith) p)
    ];
    burn = λ o t' who v s may good le p. elim (Bool-cases (t' == t)) [
      | inl same ↦ ground (arith, good, laws.burn_takes o t' who v s.assets le p)
      | inr other ↦ ground (arith, good, laws.burn_elsewhere o t' who v s.assets t (ground arith) p)
    ];
  }

  -- Where pallet-assets keeps its laws on the supply, over any sequence of calls, from any origins and
  -- with every failure rolled back, the supply of a token and what its new events say was burned come
  -- to no more than the supply before and what its new events say was minted: no call creates tokens
  -- that no event announces, nor destroys fewer than it announces.
  pub run-Accounted :
      (w : WeightInfo) (calls : List (a.Origin × Call)) → Accounted a t s₀ (run a w calls s₀)
  unfolding Since Accounted
  run-Accounted w calls =
      run-Preserves a w (Anyone a) Since Since-Sustains calls s₀ (from_Anyone a calls) (omega arith)

-- ===== src/Api/Fungibles/Balances/Replaying.antt =====
-- The balances over any sequence of calls (pallets/api/src/fungibles/mod.rs).
use pop_node.Prelude.{
  ◌≡◌, inl, inr, arith, ◌≢◌, ◌==◌, Bool-cases, List, [], Option, none, some, ok, Exec, ◌∙◌, refl,
}
use pop_node.Frame.{AccountId, TokenId, Balance, DispatchError}
use pop_node.Api.Fungibles.Types.{Assets, WeightInfo, Call, Event}
use pop_node.Api.Fungibles.State.{State}
use pop_node.Api.Fungibles.Running.{Sustains, moved, announced, run}
use pop_node.Api.Fungibles.Running.Invariant.{run-Preserves, Anyone, from_Anyone}
use pop_node.Api.Fungibles.Balances.{Balances, credit, debit, replayed, KeepsBalances, BalanceLaws}

-- One step depends on the balances before it account by account.
step_cong :
    (from to : Option AccountId) (v : Balance) (f g : Balances)
    → ((who : AccountId) → f who ≡ g who)
    → (who : AccountId) → credit to v (debit from v f) who ≡ credit to v (debit from v g) who
unfolding credit debit
step_cong none none v f g h who = h who
step_cong none (some to) v f g h who = rw (h who) refl
step_cong (some from) none v f g h who = rw (h who) refl
step_cong (some from) (some to) v f g h who = rw (h who) refl

module _ (a : Assets) (t : TokenId) (laws : BalanceLaws a t) (f : Balances) where
  -- The events tell the balances.
  Told : State a → Type 0
  Told s =
      laws.Dustless s.assets
      × ((who : AccountId) → a.balance s.assets t who ≡ replayed t s.events f who)

  kept :
      (m : Exec DispatchError a.State (Unit {0})) (s : State a)
      → KeepsBalances a t laws.Dustless m
      → Told s
      → (m s.assets).0 ≡ ok tt
      → Told (moved a (m s.assets).1 s)
  unfolding Told KeepsBalances
  kept m s keeps (fine, told) p =
      let (fine', same) = keeps s.assets fine p in (fine', λ who. same who ∙ told who)

  -- A call that moves a value, with its event.
  moves :
      (m : Exec DispatchError a.State (Unit {0})) (t' : TokenId) (from to : Option AccountId)
      (v : Balance) (s : State a)
      → Told s
      → (m s.assets).0 ≡ ok tt
      → (t' ≡ t
          → laws.Dustless (m s.assets).1
            × ((who : AccountId)
                → a.balance (m s.assets).1 t who
                  ≡ credit to v (debit from v (a.balance s.assets t)) who))
      → (t' ≢ t → KeepsBalances a t laws.Dustless m)
      → Told (announced a (Event.transfer t' from to v) (moved a (m s.assets).1 s))
  unfolding Told replayed
  moves m t' from to v s good p here elsewhere = elim (Bool-cases (t' == t)) [
    | inl same ↦
        let (fine, told) = here (ground arith) in
        (fine, λ who. rw same (told who ∙ step_cong from to v _ _ good.1 who))
    | inr other ↦
        let (fine, told) = kept m s (elsewhere (ground arith)) good p in
        (fine, λ who. rw other (told who))
  ]

  Told-Sustains : Sustains a (Anyone a) Told
  unfolding Told KeepsBalances replayed credit debit
  Told-Sustains = record {
    approve = λ o t' d v s may good p.
        kept (a.approve_transfer o t' d v) s (laws.approve_keeps o t' d v) good p;
    cancel =
        λ o t' d s may good p. kept (a.cancel_approval o t' d) s (laws.cancel_keeps o t' d) good p;
    approval = λ t' owner d v s good. good;
    transfer = λ o from t' to v s may good signed p.
        moves (a.transfer_keep_alive o t' to v) t' (some from) (some to) v s good p
          (λ q. rw q (laws.transfer_moves o from to v s.assets signed good.0 (rw q at p)))
          (λ n. laws.transfer_elsewhere o t' to v n);
    transfer_from = λ o t' from to v s may good p.
        moves (a.transfer_approved o t' from to v) t' (some from) (some to) v s good p
          (λ q. rw q (laws.transfer_approved_moves o from to v s.assets good.0 (rw q at p)))
          (λ n. laws.transfer_approved_elsewhere o t' from to v n);
    create = λ o creator t' admin m s may good p.
        kept (a.create o t' admin m) s (laws.create_keeps o t' admin m) good p;
    start_destroy =
        λ o t' s may good p. kept (a.start_destroy o t') s (laws.start_destroy_keeps o t') good p;
    set_metadata = λ o t' name symbol d s may good p.
        kept (a.set_metadata o t' name symbol d) s (laws.set_metadata_keeps o t' name symbol d) good
          p;
    clear_metadata =
        λ o t' s may good p. kept (a.clear_metadata o t') s (laws.clear_metadata_keeps o t') good p;
    mint = λ o t' who v s may good p.
        moves (a.mint o t' who v) t' none (some who) v s good p
          (λ q. rw q (laws.mint_credits o who v s.assets good.0 (rw q at p)))
          (λ n. laws.mint_elsewhere o t' who v n);
    burn = λ o t' who v s may good le p.
        moves (a.burn o t' who v) t' (some who) none v s good p
          (λ q. rw q (laws.burn_debits o who v s.assets (rw q at le) good.0 (rw q at p)))
          (λ n. laws.burn_elsewhere o t' who v n);
  }

  told :
      (w : WeightInfo) (calls : List (a.Origin × Call)) (s : State a)
      → Told s
      → Told (run a w calls s)
  told w calls s good =
      run-Preserves a w (Anyone a) Told Told-Sustains calls s (from_Anyone a calls) good

module _ (a : Assets) (t : TokenId) (laws : BalanceLaws a t) where
  -- Where pallet-assets keeps its laws on the balances of a token that exists with a minimum balance
  -- of 1, over any sequence of calls, from any origins and with every failure rolled back, every
  -- account's balance of the token is what the events of those calls make of the balances before them:
  -- who reads the pallet's events alone knows the balances.
  pub run-replayed :
      (w : WeightInfo) (calls : List (a.Origin × Call)) (s : a.State) (who : AccountId)
      → laws.Dustless s
      → let s' = run a w calls (record { assets = s; events = [] }) in
        a.balance s'.assets t who ≡ replayed t s'.events (a.balance s t) who
  unfolding Told replayed
  run-replayed w calls s who fine =
      (told a t laws (a.balance s t) w calls (record { assets = s; events = [] })
          (fine, λ who. refl)).1
        who

-- ===== src/Examples/Fungibles.antt =====
-- The fungibles pallet (pallets/api/src/fungibles/mod.rs) on a ledger on which account 1 has approved
-- account 2 for 30.
use pop_node.Prelude.{ℕ, ◌+◌, ◌*◌, ◌<◌, List, Option, ◌≤◌, ◌≡◌, refl, [], ◌∷◌, some, none, ok, err}
use pop_node.Frame.{Weight}
use pop_node.Api.Fungibles.Types.{Event}
use pop_node.Api.Fungibles.State.{State}
use pop_node.Api.Fungibles.Calls.{approve, set_allowance, approve_greater, decrease_allowance, burn}
use pop_node.Api.Fungibles.Allowance.{decrease_allowance-outcome}
use pop_node.Api.Fungibles.Burning.{burn-outcome}
use pop_node.Api.Fungibles.Table.{Kind, Adjustment, run, replay, run-replay}
use pop_node.Api.Fungibles.Weights.Measured
use pop_node.Api.Fungibles.Weights.Declared.{AssetsWeightInfo}
use pop_node.Api.Fungibles.Weights.Returned.{approve-used}
use pop_node.Api.Fungibles.Weights.Measured.{Weighing, saturated}
use pop_node.Api.Fungibles.Weights.{used}
use pop_node.Examples.Machine.{weight}
use pop_node.Examples.Ledger.{ledger, weights, opened, approval_laws, burn_laws}

abbrev start : State ledger
start = record { assets = opened; events = [] }

abbrev approved : State ledger
approved = (approve ledger weights 1 7 2 50 start).1

approve_ran : approve ledger weights 1 7 2 50 start ≡ (ok (some (weight 1)), approved)
unfolding approve set_allowance approve_greater
approve_ran = refl

decrease_allowance-outcome_example :
    (decrease_allowance ledger weights 1 7 2 0 start ≡ (ok (some (weight 0)), start))
    × (30 < 31
        → decrease_allowance ledger weights 1 7 2 31 start
          ≡ (err (record { actual_weight = none; error = ledger.unapproved }), start))
    × ((r : Option Weight) (s : State ledger)
        → 0 < 31
        → decrease_allowance ledger weights 1 7 2 31 start ≡ (ok r, s)
        → (ledger.allowance s.assets 7 1 2 + 31 ≡ 30)
          × (s.events ≡ Event.approval 7 1 2 (ledger.allowance s.assets 7 1 2) ∷ []))
decrease_allowance-outcome_example =
    decrease_allowance-outcome ledger weights approval_laws 1 7 2 1 refl 31 start

burn-outcome_example :
    (100 < 101
      → burn ledger weights 3 7 1 101 start
        ≡ (err (record { actual_weight = some (weight 2); error = ledger.balance_low }), start))
    × ((r : Option Weight) (s : State ledger)
        → burn ledger weights 3 7 1 101 start ≡ (ok r, s)
        → (ledger.balance s.assets 7 1 + 101 ≤ 100)
          × (s.events ≡ Event.transfer 7 (some 1) none 101 ∷ []))
burn-outcome_example = burn-outcome ledger weights 3 7 1 101 start burn_laws

-- Three accounts: the second adjustment takes away more than there is.
abbrev adjustments : List Adjustment
adjustments =
    record { kind = Kind.increase; who = 1; token = 7; spender = 2; value = 5 }
    ∷ record { kind = Kind.decrease; who = 3; token = 7; spender = 2; value = 5 }
    ∷ record { kind = Kind.approve; who = 4; token = 8; spender = 2; value = 9 }
    ∷ []

run-replay_example :
    let (done, s) = run ledger weights (λ who. who) adjustments start in
    ledger.allowance s.assets ≡ replay done (ledger.allowance opened)
run-replay_example =
    run-replay ledger weights (λ who. who) approval_laws (λ who. refl) adjustments start

abbrev sum : Weight → Weight → Weight
sum a b = record {
  ref_time = saturated (a.ref_time + b.ref_time);
  proof_size = saturated (a.proof_size + b.proof_size);
}

abbrev product : Weight → ℕ → Weight
product a n = record {
  ref_time = saturated (a.ref_time * n);
  proof_size = saturated (a.proof_size * n);
}

-- A database whose reads weigh 25 and whose writes weigh 100.
abbrev database : Weighing
database = record {
  saturating_add = sum;
  saturating_mul = product;
  reads = λ n. record { ref_time = 25 * n; proof_size = 0 };
  writes = λ n. record { ref_time = 100 * n; proof_size = 0 };
}

abbrev assets_weights : AssetsWeightInfo
assets_weights = record {
  transfer_keep_alive = weight 1;
  transfer_approved = weight 2;
  create = weight 3;
  start_destroy = weight 4;
  set_metadata = λ name symbol. weight (name + symbol);
  clear_metadata = weight 5;
  mint = weight 6;
  burn = weight 7;
}

approve-used_example :
    (used (approve ledger weights 1 7 2 10 start).0 ≡ some (weight 2))
    × (used (decrease_allowance ledger weights 1 7 2 10 start).0 ≡ some (weight 2))
approve-used_example = approve-used ledger weights 1 7 2 1 10 start refl

-- ===== src/Examples/Sessions.antt =====
-- A session of the contract of account 1 on the live chain (pop-api/src/v0/fungibles/mod.rs): it mints
-- 30 for account 2, moves 10 to account 3, asks for a burn of more than it holds, which fails, and
-- burns 40.
use pop_node.Prelude.{◌≡◌, arith, List, [], ◌∷◌}
use pop_node.Api.Fungibles.Types.{Call}
use pop_node.Api.Fungibles.State.{State}
use pop_node.Api.Fungibles.Running.{run}
use pop_node.Chain.Sessions.{send_all, Affords, calls_of, send_all-run}
use pop_node.Examples.Ledger.{ledger, weights, opened}
use pop_node.Examples.Live.{live, host, contract, dispatches, executes}
use pop_node.Examples.Chain.{pays}

abbrev start : State ledger
start = record { assets = opened; events = [] }

abbrev requests : List Call
requests = Call.mint 7 2 30 ∷ Call.transfer 7 3 10 ∷ Call.burn 7 1 101 ∷ Call.burn 7 1 40 ∷ []

affords : Affords live host contract (λ s. s.pallet) dispatches executes requests start
unfolding Affords
affords = (
  (omega arith, omega arith, omega arith),
  pays (Call.mint 7 2 30) _,
  (
    (omega arith, omega arith, omega arith),
    pays (Call.transfer 7 3 10) _,
    (
      (omega arith, omega arith, omega arith),
      pays (Call.burn 7 1 101) _,
      ((omega arith, omega arith, omega arith), pays (Call.burn 7 1 40) _, tt),
    ),
  ),
)

abbrev ended : State ledger
ended = send_all live host contract (λ s. s.pallet) dispatches executes requests start

send_all-run_example :
    ended
    ≡ run ledger weights
        (calls_of live host contract (λ s. s.pallet) dispatches executes 1 requests)
        start
send_all-run_example =
    send_all-run live host contract (λ s. s.pallet) dispatches executes requests start affords

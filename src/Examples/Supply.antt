-- ===== src/Examples/Supply.antt =====
-- The supplies of the ledger, and calls that mint, move and burn.
use pop_node.Prelude.{◌+◌, ◌≤◌, ◌≡◌, ◌≢◌, refl, arith, List, [], ◌∷◌, ok}
use pop_node.Frame.{AccountId, TokenId, Balance}
use pop_node.Api.Fungibles.Types.{Call}
use pop_node.Api.Fungibles.State.{State}
use pop_node.Api.Fungibles.Dispatch.{dispatch}
use pop_node.Api.Fungibles.Calls
use pop_node.Api.Fungibles.Running.{run}
use pop_node.Api.Fungibles.Supply.{KeepsSupply, SupplyLaws, minted, burned, Accounted}
use pop_node.Api.Fungibles.Supply.Accounting.{run-Accounted}
use pop_node.Examples.Ledger.{Ledger, ledger, weights, opened}

pub mint_adds_at :
    (o : AccountId) (t : TokenId) (who : AccountId) (v : Balance) (s : Ledger)
    → ledger.total_supply (ledger.mint o t who v s).1 t ≡ ledger.total_supply s t + v
mint_adds_at o t who v s = ground arith

pub mint-Elsewhere_at :
    (o : AccountId) (t : TokenId) (who : AccountId) (v : Balance) (s : Ledger) (t' : TokenId)
    → t ≢ t'
    → ledger.total_supply (ledger.mint o t who v s).1 t' ≡ ledger.total_supply s t'
mint-Elsewhere_at o t who v s t' apart = ground arith

pub burn_lowers_at :
    (o : AccountId) (t : TokenId) (who : AccountId) (v : Balance) (s : Ledger)
    → (ledger.burn o t who v s).0 ≡ ok tt
    → ledger.total_supply (ledger.burn o t who v s).1 t + v ≤ ledger.total_supply s t
burn_lowers_at o t who v s p = ground arith

pub burn-Elsewhere_at :
    (o : AccountId) (t : TokenId) (who : AccountId) (v : Balance) (s : Ledger) (t' : TokenId)
    → t ≢ t'
    → (ledger.burn o t who v s).0 ≡ ok tt
    → ledger.total_supply (ledger.burn o t who v s).1 t' ≡ ledger.total_supply s t'
burn-Elsewhere_at o t who v s t' apart p = ground arith

pub transfer_keeps_at :
    (o : AccountId) (t : TokenId) (to : AccountId) (v : Balance)
    → KeepsSupply ledger (ledger.transfer_keep_alive o t to v)
unfolding KeepsSupply
transfer_keeps_at o t to v s p t' = ground arith

pub transfer_approved_keeps_at :
    (o : AccountId) (t : TokenId) (from to : AccountId) (v : Balance)
    → KeepsSupply ledger (ledger.transfer_approved o t from to v)
unfolding KeepsSupply
transfer_approved_keeps_at o t from to v s p t' = ground arith

abbrev pub supply_laws : SupplyLaws ledger
unfolding KeepsSupply
supply_laws = record {
  mint_adds = λ o t who v s p. mint_adds_at o t who v s;
  mint_elsewhere = λ o t who v s t' apart p. mint-Elsewhere_at o t who v s t' apart;
  burn_takes = λ o t who v s le p. burn_lowers_at o t who v s p;
  burn_elsewhere = λ o t who v s t' apart p. burn-Elsewhere_at o t who v s t' apart p;
  transfer_keeps = λ o t to v. transfer_keeps_at o t to v;
  transfer_approved_keeps = λ o t from to v. transfer_approved_keeps_at o t from to v;
  approve_keeps = λ o t d v s p t'. refl;
  cancel_keeps = λ o t d s p t'. refl;
  create_keeps = λ o t admin m s p t'. refl;
  start_destroy_keeps = λ o t s p t'. refl;
  set_metadata_keeps = λ o t name symbol d s p t'. refl;
  clear_metadata_keeps = λ o t s p t'. refl;
}

abbrev start : State ledger
start = record { assets = opened; events = [] }

-- Account 1 mints 30 for account 2, who moves 10 to account 3; a burn of more than account 1 holds
-- fails, and then 40 are burned.
abbrev pub calls : List (AccountId × Call)
calls =
    (1, Call.mint 7 2 30)
    ∷ (2, Call.transfer 7 3 10)
    ∷ (1, Call.burn 7 1 101)
    ∷ (1, Call.burn 7 1 40)
    ∷ []

supplied : ledger.total_supply (run ledger weights calls start).assets 7 ≡ 90
unfolding run dispatch Calls.mint Calls.transfer Calls.burn
supplied = refl

accounted :
    let events = (run ledger weights calls start).events in
    (minted 7 events ≡ 30) × (burned 7 events ≡ 40)
unfolding run dispatch Calls.mint Calls.transfer Calls.burn minted burned
accounted = (refl, refl)

run-Accounted_example : Accounted ledger 7 start (run ledger weights calls start)
run-Accounted_example = run-Accounted ledger supply_laws start 7 weights calls

-- ===== src/Examples/Balances.antt =====
-- The balances of the ledger, where every token exists with a minimum balance of 1.
use pop_node.Prelude.{◌≡◌, ◌≢◌, refl, arith, [], ok, some}
use pop_node.Frame.{AccountId, TokenId, Balance}
use pop_node.Api.Fungibles.State.{State}
use pop_node.Api.Fungibles.Dispatch.{dispatch}
use pop_node.Api.Fungibles.Calls
use pop_node.Api.Fungibles.Running.{run}
use pop_node.Api.Fungibles.Balances.{credit, debit, replayed, KeepsBalances, BalanceLaws}
use pop_node.Api.Fungibles.Balances.Replaying.{run-replayed}
use pop_node.Examples.Ledger.{Ledger, ledger, weights, opened}
use pop_node.Examples.Supply.{calls}

-- Every state is one in which every token exists.
unfoldable pub Any : Ledger → Type 0
Any s = Unit {0}

pub transfer_moves_at :
    (o from : AccountId) (t : TokenId) (to : AccountId) (v : Balance) (s : Ledger)
    → ledger.ensure_signed o ≡ ok from
    → (ledger.transfer_keep_alive o t to v s).0 ≡ ok tt
    → (who : AccountId)
    → ledger.balance (ledger.transfer_keep_alive o t to v s).1 t who
      ≡ credit (some to) v (debit (some from) v (ledger.balance s t)) who
unfolding credit debit
transfer_moves_at o from t to v s signed p who = ground arith

pub transfer_approved_moves_at :
    (o : AccountId) (t : TokenId) (from to : AccountId) (v : Balance) (s : Ledger)
    → (ledger.transfer_approved o t from to v s).0 ≡ ok tt
    → (who : AccountId)
    → ledger.balance (ledger.transfer_approved o t from to v s).1 t who
      ≡ credit (some to) v (debit (some from) v (ledger.balance s t)) who
unfolding credit debit
transfer_approved_moves_at o t from to v s p who = ground arith

pub mint_credits_at :
    (o : AccountId) (t : TokenId) (to : AccountId) (v : Balance) (s : Ledger) (who : AccountId)
    → ledger.balance (ledger.mint o t to v s).1 t who ≡ credit (some to) v (ledger.balance s t) who
unfolding credit
mint_credits_at o t to v s who = ground arith

pub burn_debits_at :
    (o : AccountId) (t : TokenId) (from : AccountId) (v : Balance) (s : Ledger)
    → (ledger.burn o t from v s).0 ≡ ok tt
    → (who : AccountId)
    → ledger.balance (ledger.burn o t from v s).1 t who
      ≡ debit (some from) v (ledger.balance s t) who
unfolding debit
burn_debits_at o t from v s p who = ground arith

pub transfer-elsewhere_at :
    (o : AccountId) (t t' : TokenId) (to : AccountId) (v : Balance)
    → t' ≢ t
    → KeepsBalances ledger t Any (ledger.transfer_keep_alive o t' to v)
unfolding KeepsBalances Any
transfer-elsewhere_at o t t' to v n s fine p = (tt, λ who. ground arith)

pub transfer_approved-elsewhere_at :
    (o : AccountId) (t t' : TokenId) (from to : AccountId) (v : Balance)
    → t' ≢ t
    → KeepsBalances ledger t Any (ledger.transfer_approved o t' from to v)
unfolding KeepsBalances Any
transfer_approved-elsewhere_at o t t' from to v n s fine p = (tt, λ who. ground arith)

pub mint-elsewhere_at :
    (o : AccountId) (t t' : TokenId) (to : AccountId) (v : Balance)
    → t' ≢ t
    → KeepsBalances ledger t Any (ledger.mint o t' to v)
unfolding KeepsBalances Any
mint-elsewhere_at o t t' to v n s fine p = (tt, λ who. ground arith)

pub burn-elsewhere_at :
    (o : AccountId) (t t' : TokenId) (from : AccountId) (v : Balance)
    → t' ≢ t
    → KeepsBalances ledger t Any (ledger.burn o t' from v)
unfolding KeepsBalances Any
burn-elsewhere_at o t t' from v n s fine p = (tt, λ who. ground arith)

unfoldable pub balance_laws : BalanceLaws ledger 7
unfolding KeepsBalances Any
balance_laws = record {
  Dustless = Any;
  transfer_moves = λ o from to v s signed fine p. (tt, transfer_moves_at o from 7 to v s signed p);
  transfer_approved_moves =
      λ o from to v s fine p. (tt, transfer_approved_moves_at o 7 from to v s p);
  mint_credits = λ o to v s fine p. (tt, mint_credits_at o 7 to v s);
  burn_debits = λ o from v s le fine p. (tt, burn_debits_at o 7 from v s p);
  transfer_elsewhere = λ o t' to v n. transfer-elsewhere_at o 7 t' to v n;
  transfer_approved_elsewhere =
      λ o t' from to v n. transfer_approved-elsewhere_at o 7 t' from to v n;
  mint_elsewhere = λ o t' to v n. mint-elsewhere_at o 7 t' to v n;
  burn_elsewhere = λ o t' from v n. burn-elsewhere_at o 7 t' from v n;
  approve_keeps = λ o t' d v s fine p. (tt, λ who. refl);
  cancel_keeps = λ o t' d s fine p. (tt, λ who. refl);
  create_keeps = λ o t' admin m s fine p. (tt, λ who. refl);
  start_destroy_keeps = λ o t' s fine p. (tt, λ who. refl);
  set_metadata_keeps = λ o t' name symbol d s fine p. (tt, λ who. refl);
  clear_metadata_keeps = λ o t' s fine p. (tt, λ who. refl);
}

abbrev ran : State ledger
ran = run ledger weights calls (record { assets = opened; events = [] })

-- What account 2 has left: it got 30 and gave 10.
left_over : ledger.balance ran.assets 7 2 ≡ 20
unfolding run dispatch Calls.mint Calls.transfer Calls.burn
left_over = refl

run-replayed_example :
    ledger.balance ran.assets 7 2 ≡ replayed 7 ran.events (ledger.balance opened 7) 2
unfolding Any balance_laws
run-replayed_example = run-replayed ledger 7 balance_laws weights calls opened 2 tt

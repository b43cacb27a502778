-- ===== src/Examples/Ledger.antt =====
-- A ledger of balances and allowances in the place of pallet-assets: every account may do everything,
-- and what a function of the theorems does not use does nothing.
use pop_node.Prelude.{
  err, leb, Bool, Exec, ◌+◌, ◌-◌, ◌≤◌, ◌≡◌, arith, ◌==◌, ◌&&◌, if◌then◌else◌, [], true, ok, pure,
}
use pop_node.Frame.{AccountId, TokenId, Balance, DispatchError}
use pop_node.Api.Fungibles.Types.{Assets, WeightInfo}
use pop_node.Api.Fungibles.Allowance.{ApprovalLaws, Elsewhere}
use pop_node.Api.Fungibles.Burning.{BurnLaws}
use pop_node.Examples.Machine.{weight}

pub record Ledger : Type 0 where
  pub allowances : TokenId → AccountId → AccountId → Balance
  pub balances : TokenId → AccountId → Balance
  pub supplies : TokenId → Balance

abbrev pub set_allowance : TokenId → AccountId → AccountId → Balance → Ledger → Ledger
set_allowance t o d v s = record s {
  allowances = λ t' o' d'. if t' == t && o' == o && d' == d then v else s.allowances t' o' d';
}

abbrev pub set_balance : TokenId → AccountId → Balance → Ledger → Ledger
set_balance t o v s = record s {
  balances = λ t' o'. if t' == t && o' == o then v else s.balances t' o';
}

abbrev pub set_supply : TokenId → Balance → Ledger → Ledger
set_supply t v s = record s { supplies = λ t'. if t' == t then v else s.supplies t' }

abbrev move : TokenId → AccountId → AccountId → Balance → Ledger → Ledger
move t from to v s =
    let taken = set_balance t from (s.balances t from - v) s in
    set_balance t to (taken.balances t to + v) taken

-- Where the test fails, so does the operation.
abbrev provided : Bool → (Ledger → Ledger) → Exec DispatchError Ledger (Unit {0})
provided enough f s = if enough then (ok tt, f s) else (err DispatchError.unavailable, s)

abbrev pub ledger : Assets
ledger = record {
  State = Ledger;
  Origin = AccountId;
  ensure_signed = λ o. ok o;
  transfer_keep_alive = λ o t to v s. provided (leb v (s.balances t o)) (move t o to v) s;
  transfer_approved = λ o t from to v s.
      provided (leb v (s.balances t from) && leb v (s.allowances t from o))
        (λ s. move t from to v (set_allowance t from o (s.allowances t from o - v) s)) s;
  approve_transfer = λ o t d v s. (ok tt, set_allowance t o d (s.allowances t o d + v) s);
  cancel_approval = λ o t d s. (ok tt, set_allowance t o d 0 s);
  create = λ o t admin m. pure tt;
  start_destroy = λ o t. pure tt;
  set_metadata = λ o t name symbol d. pure tt;
  clear_metadata = λ o t. pure tt;
  mint = λ o t who v s.
      (ok tt, set_supply t (s.supplies t + v) (set_balance t who (s.balances t who + v) s));
  burn = λ o t who v s.
      provided (leb v (s.supplies t))
        (λ s. set_supply t (s.supplies t - v) (set_balance t who (s.balances t who - v) s)) s;
  total_supply = λ s. s.supplies;
  balance = λ s. s.balances;
  allowance = λ s. s.allowances;
  name = λ s t. [];
  symbol = λ s t. [];
  decimals = λ s t. 12;
  asset_exists = λ s t. true;
  balance_low = DispatchError.unavailable;
  unapproved = DispatchError.cannot_lookup;
}

abbrev pub weights : WeightInfo
weights = record {
  approve = λ x y. weight (x + y);
  total_supply = weight 1;
  balance_of = weight 2;
  allowance = weight 3;
  token_name = weight 4;
  token_symbol = weight 5;
  token_decimals = weight 6;
  token_exists = weight 7;
  assets_approve_transfer = weight 8;
}

-- Account 1 holds 100 of every token and has approved account 2 for 30.
abbrev pub opened : Ledger
opened = record {
  allowances = λ t o d. if o == 1 && d == 2 then 30 else 0;
  balances = λ t o. if o == 1 then 100 else 0;
  supplies = λ t. 100;
}

pub approve_adds_at :
    (o : AccountId) (t : TokenId) (d : AccountId) (v : Balance) (s : Ledger) (owner : AccountId)
    → ledger.ensure_signed o ≡ ok owner
    → ledger.allowance (ledger.approve_transfer o t d v s).1 t owner d
      ≡ ledger.allowance s t owner d + v
approve_adds_at o t d v s owner e = ground arith

pub cancel_clears_at :
    (o : AccountId) (t : TokenId) (d : AccountId) (s : Ledger) (owner : AccountId)
    → ledger.ensure_signed o ≡ ok owner
    → ledger.allowance (ledger.cancel_approval o t d s).1 t owner d ≡ 0
cancel_clears_at o t d s owner e = ground arith

pub approve-Elsewhere_at :
    (o : AccountId) (t : TokenId) (d : AccountId) (v : Balance) (s : Ledger) (owner : AccountId)
    (t' : TokenId) (o' d' : AccountId)
    → ledger.ensure_signed o ≡ ok owner
    → Elsewhere t owner d t' o' d'
    → ledger.allowance (ledger.approve_transfer o t d v s).1 t' o' d' ≡ ledger.allowance s t' o' d'
approve-Elsewhere_at o t d v s owner t' o' d' e apart = ground arith

pub cancel-Elsewhere_at :
    (o : AccountId) (t : TokenId) (d : AccountId) (s : Ledger) (owner : AccountId) (t' : TokenId)
    (o' d' : AccountId)
    → ledger.ensure_signed o ≡ ok owner
    → Elsewhere t owner d t' o' d'
    → ledger.allowance (ledger.cancel_approval o t d s).1 t' o' d' ≡ ledger.allowance s t' o' d'
cancel-Elsewhere_at o t d s owner t' o' d' e apart = ground arith

pub burn_takes_at :
    (o : AccountId) (t : TokenId) (who : AccountId) (v : Balance) (s : Ledger)
    → v ≤ ledger.balance s t who
    → (ledger.burn o t who v s).0 ≡ ok tt
    → ledger.balance (ledger.burn o t who v s).1 t who + v ≤ ledger.balance s t who
burn_takes_at o t who v s le p = ground arith

abbrev pub approval_laws : ApprovalLaws ledger
approval_laws = record {
  approve_adds = λ o t d v s owner e p. approve_adds_at o t d v s owner e;
  cancel_clears = λ o t d s owner e p. cancel_clears_at o t d s owner e;
  approve_elsewhere =
      λ o t d v s owner t' o' d' e p apart. approve-Elsewhere_at o t d v s owner t' o' d' e apart;
  cancel_elsewhere =
      λ o t d s owner t' o' d' e p apart. cancel-Elsewhere_at o t d s owner t' o' d' e apart;
}

abbrev pub burn_laws : BurnLaws ledger
burn_laws = record { burn_takes = λ o t who v s le p. burn_takes_at o t who v s le p }

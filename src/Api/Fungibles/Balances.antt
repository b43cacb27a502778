-- ===== src/Api/Fungibles/Balances.antt =====
-- The balances of a token as the events tell them (pallets/api/src/fungibles/mod.rs).
pub mod Replaying
use pop_node.Prelude.{
  ℕ, ◌+◌, ◌-◌, ◌≤◌, ◌≡◌, ◌≢◌, ◌==◌, if◌then◌else◌, List, [], ◌∷◌, Option, none, some, ok, Exec,
}
use pop_node.Frame.{AccountId, TokenId, Balance, DispatchError}
use pop_node.Api.Fungibles.Types.{Assets, Event}

abbrev pub Balances : Type 0
Balances = AccountId → Balance

-- One account gets, or gives, a value.
unfoldable pub credit : Option AccountId → Balance → Balances → Balances
credit none v f who = f who
credit (some to) v f who = if who == to then f who + v else f who

unfoldable pub debit : Option AccountId → Balance → Balances → Balances
debit none v f who = f who
debit (some from) v f who = if who == from then f who - v else f who

-- The balances that the events, the newest first, make of the balances before them.
unfoldable pub replayed : TokenId → List Event → Balances → Balances
replayed t [] f = f
replayed t (Event.transfer token from to v ∷ events) f =
    let before = replayed t events f in
    if token == t then credit to v (debit from v before) else before
replayed t (event ∷ events) f = replayed t events f

-- A call of pallet-assets that succeeds leaves the balances of the token as they were, and keeps the
-- predicate.
unfoldable pub KeepsBalances :
    (a : Assets) → TokenId → (a.State → Type 0) → Exec DispatchError a.State (Unit {0}) → Type 0
KeepsBalances a t Dustless m =
    (s : a.State)
    → Dustless s
    → (m s).0 ≡ ok tt
    → Dustless (m s).1 × ((who : AccountId) → a.balance (m s).1 t who ≡ a.balance s t who)

-- What pallet-assets documents of the balances of one token while the token exists and its minimum
-- balance is 1, so that no dust remains where a balance falls: a transfer reduces the sender's balance
-- by the amount and increases the target's by it, minting increases a balance by the amount, and
-- burning from a balance that covers the amount reduces it by the amount. Nothing else touches a
-- balance, the token cannot be created again, and its minimum balance stays.
pub record BalanceLaws (a : Assets) (t : TokenId) : Type 1 where
  pub Dustless : a.State → Type 0
  pub transfer_moves :
      (o : a.Origin) (from to : AccountId) (v : Balance) (s : a.State)
      → a.ensure_signed o ≡ ok from
      → Dustless s
      → (a.transfer_keep_alive o t to v s).0 ≡ ok tt
      → Dustless (a.transfer_keep_alive o t to v s).1
        × ((who : AccountId)
            → a.balance (a.transfer_keep_alive o t to v s).1 t who
              ≡ credit (some to) v (debit (some from) v (a.balance s t)) who)
  pub transfer_approved_moves :
      (o : a.Origin) (from to : AccountId) (v : Balance) (s : a.State)
      → Dustless s
      → (a.transfer_approved o t from to v s).0 ≡ ok tt
      → Dustless (a.transfer_approved o t from to v s).1
        × ((who : AccountId)
            → a.balance (a.transfer_approved o t from to v s).1 t who
              ≡ credit (some to) v (debit (some from) v (a.balance s t)) who)
  pub mint_credits :
      (o : a.Origin) (to : AccountId) (v : Balance) (s : a.State)
      → Dustless s
      → (a.mint o t to v s).0 ≡ ok tt
      → Dustless (a.mint o t to v s).1
        × ((who : AccountId)
            → a.balance (a.mint o t to v s).1 t who ≡ credit (some to) v (a.balance s t) who)
  pub burn_debits :
      (o : a.Origin) (from : AccountId) (v : Balance) (s : a.State)
      → v ≤ a.balance s t from
      → Dustless s
      → (a.burn o t from v s).0 ≡ ok tt
      → Dustless (a.burn o t from v s).1
        × ((who : AccountId)
            → a.balance (a.burn o t from v s).1 t who ≡ debit (some from) v (a.balance s t) who)
  pub transfer_elsewhere :
      (o : a.Origin) (t' : TokenId) (to : AccountId) (v : Balance)
      → t' ≢ t
      → KeepsBalances a t Dustless (a.transfer_keep_alive o t' to v)
  pub transfer_approved_elsewhere :
      (o : a.Origin) (t' : TokenId) (from to : AccountId) (v : Balance)
      → t' ≢ t
      → KeepsBalances a t Dustless (a.transfer_approved o t' from to v)
  pub mint_elsewhere :
      (o : a.Origin) (t' : TokenId) (to : AccountId) (v : Balance)
      → t' ≢ t
      → KeepsBalances a t Dustless (a.mint o t' to v)
  pub burn_elsewhere :
      (o : a.Origin) (t' : TokenId) (from : AccountId) (v : Balance)
      → t' ≢ t
      → KeepsBalances a t Dustless (a.burn o t' from v)
  pub approve_keeps :
      (o : a.Origin) (t' : TokenId) (d : AccountId) (v : Balance)
      → KeepsBalances a t Dustless (a.approve_transfer o t' d v)
  pub cancel_keeps :
      (o : a.Origin) (t' : TokenId) (d : AccountId)
      → KeepsBalances a t Dustless (a.cancel_approval o t' d)
  pub create_keeps :
      (o : a.Origin) (t' : TokenId) (admin : AccountId) (m : Balance)
      → KeepsBalances a t Dustless (a.create o t' admin m)
  pub start_destroy_keeps :
      (o : a.Origin) (t' : TokenId) → KeepsBalances a t Dustless (a.start_destroy o t')
  pub set_metadata_keeps :
      (o : a.Origin) (t' : TokenId) (name symbol : List ℕ) (d : ℕ)
      → KeepsBalances a t Dustless (a.set_metadata o t' name symbol d)
  pub clear_metadata_keeps :
      (o : a.Origin) (t' : TokenId) → KeepsBalances a t Dustless (a.clear_metadata o t')

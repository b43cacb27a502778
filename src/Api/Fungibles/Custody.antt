-- ===== src/Api/Fungibles/Custody.antt =====
-- What happens to the tokens of an account that signs no call (pallets/api/src/fungibles/mod.rs).
pub mod Keeping
use pop_node.Prelude.{
  ℕ, ◌+◌, ◌-◌, ◌≤◌, ◌≡◌, ◌≢◌, ◌==◌, ◌&&◌, if◌then◌else◌, inl, inr, arith, Bool-cases, List, [], ◌∷◌,
  none, some, ok, err, Exec, refl, sym, ◌∙◌,
}
use pop_node.Frame.{AccountId, TokenId, Balance, DispatchError}
use pop_node.Api.Fungibles.Types.{Assets, WeightInfo, Call, Event}
use pop_node.Api.Fungibles.State.{State}
use pop_node.Api.Fungibles.Running.{Sustains, AllFrom, moved, announced, run}
use pop_node.Api.Fungibles.Running.Invariant.{run-Preserves}
use pop_node.Api.Fungibles.Allowance.{ApprovalLaws}
use pop_node.Api.Fungibles.Balances.{Balances, credit, debit, KeepsBalances, BalanceLaws}

-- What an account lost by burning, as the events tell.
unfoldable pub burned_of : TokenId → AccountId → List Event → Balance
burned_of t owner [] = 0
burned_of t owner (Event.transfer token (some from) none v ∷ events) =
    (if token == t && from == owner then v else 0) + burned_of t owner events
burned_of t owner (event ∷ events) = burned_of t owner events

-- A call of pallet-assets that succeeds raises no allowance.
unfoldable pub RaisesNone : (a : Assets) → Exec DispatchError a.State (Unit {0}) → Type 0
RaisesNone a m =
    (s : a.State)
    → (m s).0 ≡ ok tt
    → (t : TokenId) (owner d : AccountId) → a.allowance (m s).1 t owner d ≤ a.allowance s t owner d

-- What pallet-assets documents of allowances beyond `ApprovalLaws`: approvals are given and cancelled
-- by signed origins, a transfer by approval takes no more than the signer's allowance, and no other
-- call raises one.
pub record AllowanceLaws (a : Assets) : Type 0 where
  pub approve_signed :
      (o : a.Origin) (t : TokenId) (d : AccountId) (v : Balance) (s : a.State)
      → (a.approve_transfer o t d v s).0 ≡ ok tt
      → (who : AccountId) × (a.ensure_signed o ≡ ok who)
  pub cancel_signed :
      (o : a.Origin) (t : TokenId) (d : AccountId) (s : a.State)
      → (a.cancel_approval o t d s).0 ≡ ok tt
      → (who : AccountId) × (a.ensure_signed o ≡ ok who)
  pub transfer_approved_covered :
      (o : a.Origin) (t : TokenId) (from to : AccountId) (v : Balance) (s : a.State)
      → (a.transfer_approved o t from to v s).0 ≡ ok tt
      → (d : AccountId) × (a.ensure_signed o ≡ ok d) × (v ≤ a.allowance s t from d)
  pub transfer_raises :
      (o : a.Origin) (t : TokenId) (to : AccountId) (v : Balance)
      → RaisesNone a (a.transfer_keep_alive o t to v)
  pub transfer_approved_raises :
      (o : a.Origin) (t : TokenId) (from to : AccountId) (v : Balance)
      → RaisesNone a (a.transfer_approved o t from to v)
  pub create_raises :
      (o : a.Origin) (t : TokenId) (admin : AccountId) (m : Balance)
      → RaisesNone a (a.create o t admin m)
  pub start_destroy_raises : (o : a.Origin) (t : TokenId) → RaisesNone a (a.start_destroy o t)
  pub set_metadata_raises :
      (o : a.Origin) (t : TokenId) (name symbol : List ℕ) (d : ℕ)
      → RaisesNone a (a.set_metadata o t name symbol d)
  pub clear_metadata_raises : (o : a.Origin) (t : TokenId) → RaisesNone a (a.clear_metadata o t)
  pub mint_raises :
      (o : a.Origin) (t : TokenId) (who : AccountId) (v : Balance) → RaisesNone a (a.mint o t who v)
  pub burn_raises :
      (o : a.Origin) (t : TokenId) (who : AccountId) (v : Balance) → RaisesNone a (a.burn o t who v)

module _ (a : Assets) (owner : AccountId) where
  -- An origin that is not the owner's.
  abbrev pub Stranger : a.Origin → Type 0
  Stranger o = (who : AccountId) → a.ensure_signed o ≡ ok who → owner ≢ who

module _ (a : Assets) (t : TokenId) (owner : AccountId) where
  -- Nobody has an allowance over the owner's tokens.
  abbrev pub Unapproved : State a → Type 0
  Unapproved s = (d : AccountId) → a.allowance s.assets t owner d ≡ 0

  -- The owner's balance with what it lost by burning.
  abbrev pub held : State a → Balance
  held s = a.balance s.assets t owner + burned_of t owner s.events

-- ===== src/Api/Fungibles/Supply.antt =====
-- The supply of a token against the events of the pallet, over any sequence of calls
-- (pallets/api/src/fungibles/mod.rs).
pub mod Accounting
use pop_node.Prelude.{
  map_err, ◌>>◌, ℕ, pure, lift, gets, ◌>>=◌, >>=-eq-ok, Result, ◌+◌, ◌≤◌, ◌≡◌, ◌≢◌, ◌⊎◌, inl, inr,
  refl, sym, ap, ◌∙◌, arith, ◌==◌, Bool, Bool-cases, List, [], ◌∷◌, Option, none, some, ok, err,
  Result-cases, if◌then◌else◌, Exec, committed,
}
use pop_node.Frame.{AccountId, TokenId, Balance, Weight, DispatchError}
use pop_node.Api.Fungibles.Types.{Assets, WeightInfo, Call, Event}
use pop_node.Api.Fungibles.State.{State, on_assets, deposit_event, with_weight, no_weight}
use pop_node.Api.Fungibles.Dispatch.{dispatch}
use pop_node.Api.Fungibles.Calls

-- What the events say was created of a token, and what was destroyed.
unfoldable pub minted : TokenId → List Event → Balance
minted t [] = 0
minted t (Event.transfer token none (some to) value ∷ events) =
    let before = minted t events in if token == t then value + before else before
minted t (event ∷ events) = minted t events

unfoldable pub burned : TokenId → List Event → Balance
burned t [] = 0
burned t (Event.transfer token (some from) none value ∷ events) =
    let before = burned t events in if token == t then value + before else before
burned t (event ∷ events) = burned t events

module _ (a : Assets) where
  -- A call of pallet-assets that succeeds leaves every supply as it was.
  unfoldable pub KeepsSupply : Exec DispatchError a.State (Unit {0}) → Type 0
  KeepsSupply m =
      (s : a.State)
      → (m s).0 ≡ ok tt
      → (t : TokenId) → a.total_supply (m s).1 t ≡ a.total_supply s t

  -- What pallet-assets documents of the supply: minting increases that of the token by the amount;
  -- burning from a balance that covers the amount reduces it by the amount at least, as dust goes
  -- too; nothing else changes it, and a token that is created has none.
  pub record SupplyLaws : Type 0 where
    pub mint_adds :
        (o : a.Origin) (t : TokenId) (who : AccountId) (v : Balance) (s : a.State)
        → (a.mint o t who v s).0 ≡ ok tt
        → a.total_supply (a.mint o t who v s).1 t ≡ a.total_supply s t + v
    pub mint_elsewhere :
        (o : a.Origin) (t : TokenId) (who : AccountId) (v : Balance) (s : a.State) (t' : TokenId)
        → t ≢ t'
        → (a.mint o t who v s).0 ≡ ok tt
        → a.total_supply (a.mint o t who v s).1 t' ≡ a.total_supply s t'
    pub burn_takes :
        (o : a.Origin) (t : TokenId) (who : AccountId) (v : Balance) (s : a.State)
        → v ≤ a.balance s t who
        → (a.burn o t who v s).0 ≡ ok tt
        → a.total_supply (a.burn o t who v s).1 t + v ≤ a.total_supply s t
    pub burn_elsewhere :
        (o : a.Origin) (t : TokenId) (who : AccountId) (v : Balance) (s : a.State) (t' : TokenId)
        → t ≢ t'
        → (a.burn o t who v s).0 ≡ ok tt
        → a.total_supply (a.burn o t who v s).1 t' ≡ a.total_supply s t'
    pub transfer_keeps :
        (o : a.Origin) (t : TokenId) (to : AccountId) (v : Balance)
        → KeepsSupply (a.transfer_keep_alive o t to v)
    pub transfer_approved_keeps :
        (o : a.Origin) (t : TokenId) (from to : AccountId) (v : Balance)
        → KeepsSupply (a.transfer_approved o t from to v)
    pub approve_keeps :
        (o : a.Origin) (t : TokenId) (d : AccountId) (v : Balance)
        → KeepsSupply (a.approve_transfer o t d v)
    pub cancel_keeps :
        (o : a.Origin) (t : TokenId) (d : AccountId) → KeepsSupply (a.cancel_approval o t d)
    pub create_keeps :
        (o : a.Origin) (t : TokenId) (admin : AccountId) (m : Balance)
        → KeepsSupply (a.create o t admin m)
    pub start_destroy_keeps : (o : a.Origin) (t : TokenId) → KeepsSupply (a.start_destroy o t)
    pub set_metadata_keeps :
        (o : a.Origin) (t : TokenId) (name symbol : List ℕ) (d : ℕ)
        → KeepsSupply (a.set_metadata o t name symbol d)
    pub clear_metadata_keeps : (o : a.Origin) (t : TokenId) → KeepsSupply (a.clear_metadata o t)

  -- Between two states, no more of a token was created than minted events say, and no less
  -- destroyed than burned events say.
  unfoldable pub Accounted : TokenId → State a → State a → Type 0
  Accounted t s s' =
      a.total_supply s'.assets t + burned t s'.events + minted t s.events
      ≤ a.total_supply s.assets t + burned t s.events + minted t s'.events

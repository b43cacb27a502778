-- ===== src/Contract.antt =====
-- pop-api/examples/fungibles/lib.rs: the contract of one fungible token. `caller` and `contract` are
-- the accounts of the caller and of the contract; the newest event stands first.
pub mod Messages
pub mod Ownership
pub mod Queries
pub mod Proxy
pub mod Events
pub mod Sending
pub mod Tester
use pop_node.Prelude.{
  ℕ, List, [], ◌∷◌, Option, some, none, Exec, map_err, unwrap_or, raise, pure, gets, modify, ◌>>=◌,
  ◌>>◌, ok, ◌==◌, if◌then◌else◌, ◌||◌,
}
use pop_node.Prelude.Utf8.{from_utf8}
use pop_node.Frame.{AccountId, TokenId, Balance}
use pop_node.Api.Codec.{Scale}
use pop_node.PopApi.{StatusCode}
use pop_node.PopApi.Ink.{Ink}
use pop_node.PopApi.Events.{Event}
use pop_node.PopApi.Errors.{Psp22Error, psp22_error, custom}
use pop_node.PopApi.Fungibles

-- `Fungible`
pub record Fungible : Type 0 where
  pub id : TokenId
  pub owner : AccountId

-- `"Not the owner"`
abbrev pub not_the_owner : List ℕ
not_the_owner = 78 ∷ 111 ∷ 116 ∷ 32 ∷ 116 ∷ 104 ∷ 101 ∷ 32 ∷ 111 ∷ 119 ∷ 110 ∷ 101 ∷ 114 ∷ []

module _ (c : Scale) (ink : Ink) where
  -- The chain, and the events emitted so far.
  pub record Outside : Type 0 where
    pub chain : ink.State
    pub events : List Event

  pub record State : Type 0 where
    pub storage : Fungible
    pub outside : Outside

  abbrev pub Message : Type 0 → Type 0
  Message A = Exec Psp22Error State A

  -- A function of the library, with `.map_err(Psp22Error::from)?`.
  abbrev pub on_chain : {A : Type 0} → Exec StatusCode ink.State A → Exec Psp22Error Outside A
  on_chain m s = (map_err psp22_error (m s.chain).0, record s { chain = (m s.chain).1 })

  -- A function of the library, with `.unwrap_or_default()`.
  abbrev pub or_default : {A : Type 0} → Exec StatusCode ink.State A → A → Exec Psp22Error Outside A
  or_default m d s = (ok (unwrap_or (m s.chain).0 d), record s { chain = (m s.chain).1 })

  abbrev pub emit : Event → Exec Psp22Error Outside (Unit {0})
  emit event s = (ok tt, record s { events = event ∷ s.events })

  -- Something outside of the contract's storage.
  abbrev pub outside : {A : Type 0} → Exec Psp22Error Outside A → Message A
  outside m s = ((m s.outside).0, record s { outside = (m s.outside).1 })

  -- `self.id`
  abbrev pub token : Message TokenId
  token = gets (λ s. s.storage.id)

  module _ (caller contract : AccountId) where
    unfoldable pub new : TokenId → Balance → Exec Psp22Error Outside Fungible
    unfolding Fungibles.create
    new id min_balance = do
      on_chain (Fungibles.create c ink id contract min_balance)
      emit (Event.created id contract contract)
      pure (record { id = id; owner = caller })

-- ===== src/Contract/Ownership.antt =====
-- Who may change what through the contract (pop-api/examples/fungibles/lib.rs).
use pop_node.Prelude.{
  ap, ℕ, ◌≡◌, ◌≢◌, ◌⊎◌, inl, inr, refl, ==_ne, ==_iff, List, [], ◌∷◌, err, Bool-cases, ◌==◌, arith,
  Result, ok,
}
use pop_node.Frame.{AccountId, Balance}
use pop_node.Api.Codec.{Scale}
use pop_node.PopApi.Ink.{Ink}
use pop_node.PopApi.Errors.{custom, Psp22Error}
use pop_node.Contract.{Message, State, not_the_owner}
use pop_node.Contract.Messages

-- The messages that take the contract by `&mut self`, with their arguments.
pub data Request : Type 0 where
  transfer : (to : AccountId) (value : Balance) (extra : List ℕ) → Request
  transfer_from : (from to : AccountId) (value : Balance) (extra : List ℕ) → Request
  approve increase_allowance decrease_allowance : (spender : AccountId) (value : Balance) → Request
  mint burn : (account : AccountId) (value : Balance) → Request
  transfer_ownership : (owner : AccountId) → Request

module _ (c : Scale) (ink : Ink) (contract : AccountId) where
  -- The message that a caller sends.
  unfoldable pub handle : AccountId → Request → Message c ink (Unit {0})
  handle caller (Request.transfer to value d) = Messages.transfer c ink caller contract to value d
  handle caller (Request.transfer_from from to value d) =
      Messages.transfer_from c ink caller contract from to value d
  handle caller (Request.approve spender value) =
      Messages.approve c ink caller contract spender value
  handle caller (Request.increase_allowance spender value) =
      Messages.increase_allowance c ink caller contract spender value
  handle caller (Request.decrease_allowance spender value) =
      Messages.decrease_allowance c ink caller contract spender value
  handle caller (Request.mint account value) = Messages.mint c ink caller contract account value
  handle caller (Request.burn account value) = Messages.burn c ink caller contract account value
  handle caller (Request.transfer_ownership owner) =
      Messages.transfer_ownership c ink caller contract owner

  -- A message from anyone but the owner fails with "Not the owner", makes no call of the chain, emits
  -- nothing and leaves the storage as it was.
  pub handle-not_the_owner :
      (caller : AccountId) (r : Request) (s : State c ink)
      → s.storage.owner ≢ caller
      → handle caller r s ≡ (err (custom not_the_owner), s)
  unfolding handle Messages.transfer Messages.transfer_from Messages.approve
      Messages.increase_allowance Messages.decrease_allowance Messages.mint Messages.burn
      Messages.transfer_ownership Messages.ensure_owner
  handle-not_the_owner caller (Request.transfer to value d) s n =
      rw (==_ne s.storage.owner caller n) refl
  handle-not_the_owner caller _ s n = rw (==_ne s.storage.owner caller n) refl

  -- A message leaves the storage as it was, or else it is the owner's request to hand over the
  -- ownership, and only the owner changes.
  pub handle-storage :
      (caller : AccountId) (r : Request) (s : State c ink) {x : Result Psp22Error (Unit {0})}
      {s' : State c ink}
      → handle caller r s ≡ (x, s')
      → (s'.storage ≡ s.storage)
        ⊎ ((owner : AccountId) × (r ≡ Request.transfer_ownership owner)
            × (s.storage.owner ≡ caller)
            × (s'.storage ≡ record s.storage { owner = owner }))
  unfolding handle Messages.transfer Messages.transfer_from Messages.approve
      Messages.increase_allowance Messages.decrease_allowance Messages.mint Messages.burn
      Messages.transfer_ownership Messages.ensure_owner Messages.send_transfer
      Messages.send_transfer_from Messages.send_approve Messages.send_increase
      Messages.send_decrease Messages.send_mint Messages.send_burn Messages.allowance
  handle-storage caller (Request.transfer to value d) s h = inl (ground arith)
  handle-storage caller (Request.transfer_ownership owner) s h =
      elim (Bool-cases (s.storage.owner == caller)) [
        | inl p ↦ inr (owner, refl, (==_iff s.storage.owner caller).0 p, ground (arith, p))
        | inr p ↦ inl (ground arith)
      ]
  handle-storage caller _ s h = inl (ground arith)

  -- A message leaves the contract with its token.
  pub handle-id :
      (caller : AccountId) (r : Request) (s : State c ink)
      → (handle caller r s).1.storage.id ≡ s.storage.id
  handle-id caller r s = elim (handle-storage caller r s refl) [
    | inl same ↦ ap (λ x. x.id) same
    | inr (owner, _, _, changed) ↦ ap (λ x. x.id) changed
  ]

  -- The history of a contract: the messages that it was sent, by their callers. A message that fails
  -- is reverted.
  pub data History : List AccountId → State c ink → State c ink → Type 0 where
    created : {s : State c ink} → History [] s s
    handled :
        {caller : AccountId} {callers : List AccountId} {s t u : State c ink} (r : Request)
        → handle caller r s ≡ (ok tt, t)
        → History callers t u
        → History (caller ∷ callers) s u
    reverted :
        {caller : AccountId} {callers : List AccountId} {s t u : State c ink} {x : Psp22Error}
        (r : Request)
        → handle caller r s ≡ (err x, t)
        → History callers s u
        → History (caller ∷ callers) s u

  abbrev pub NoneIs : AccountId → List AccountId → Type 0
  NoneIs owner [] = Unit {0}
  NoneIs owner (caller ∷ callers) = (owner ≢ caller) × NoneIs owner callers

  -- In a history in which no caller is the owner, nothing happens: neither the contract, nor its
  -- events, nor the chain behind it changes.
  pub History-no_owner :
      {callers : List AccountId} {s u : State c ink}
      → History callers s u
      → NoneIs s.storage.owner callers
      → u ≡ s
  History-no_owner created n = refl
  History-no_owner (handled {caller = caller} {s = s} r p h) n =
      absurd (cc (handle-not_the_owner caller r s n.0, p))
  History-no_owner (reverted r p h) n = History-no_owner h n.1

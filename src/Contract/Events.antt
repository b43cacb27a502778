-- ===== src/Contract/Events.antt =====
-- What the messages of the contract announce (pop-api/examples/fungibles/lib.rs).
use pop_node.Prelude.{
  ◌≡◌, refl, ap, ◌∙◌, arith, Bool, true, false, ◌||◌, ◌==◌, ==_refl, List, [], ◌∷◌, ◌++◌, ok, err,
  some, none, unwrap_or,
}
use pop_node.Frame.{AccountId, Balance}
use pop_node.Api.Codec.{Scale}
use pop_node.PopApi.Ink.{Ink}
use pop_node.PopApi.Events.{Event}
use pop_node.PopApi.Fungibles
use pop_node.PopApi.Errors.{Psp22Error}
use pop_node.Contract.{State}
use pop_node.Contract.Messages
use pop_node.Contract.Ownership.{Request, handle}

-- The requests that ask for nothing: a transfer of nothing, or from an account to itself, and an
-- approval of the contract for itself.
abbrev pub asks_nothing : AccountId → Request → Bool
asks_nothing contract (Request.transfer to value _) = contract == to || value == 0
asks_nothing contract (Request.transfer_from from to value _) = from == to || value == 0
asks_nothing contract (Request.approve spender value) = contract == spender
asks_nothing contract (Request.increase_allowance spender value) = contract == spender || value == 0
asks_nothing contract (Request.decrease_allowance spender value) = contract == spender || value == 0
asks_nothing contract (Request.mint account value) = value == 0
asks_nothing contract (Request.burn account value) = value == 0
asks_nothing contract (Request.transfer_ownership owner) = false

-- The events of a request that asks for something, the newest first, given the allowance that the
-- chain then reports. The source of a transfer is the contract, for `transfer_from` too.
abbrev pub announced : AccountId → Balance → Request → List Event
announced contract allowed (Request.transfer to value _) =
    Event.transfer (some contract) (some to) value ∷ []
announced contract allowed (Request.transfer_from from to value _) =
    Event.approval from contract allowed ∷ Event.transfer (some contract) (some to) value ∷ []
announced contract allowed (Request.approve spender value) =
    Event.approval contract spender value ∷ []
announced contract allowed (Request.increase_allowance spender value) =
    Event.approval contract spender allowed ∷ []
announced contract allowed (Request.decrease_allowance spender value) =
    Event.approval contract spender allowed ∷ []
announced contract allowed (Request.mint account value) =
    Event.transfer none (some account) value ∷ []
announced contract allowed (Request.burn account value) =
    Event.transfer (some account) none value ∷ []
announced contract allowed (Request.transfer_ownership owner) = []

module _ (c : Scale) (ink : Ink) (contract : AccountId) where
  -- A request that asks for nothing succeeds for the owner, and nothing happens: there is no call
  -- of the chain and no event.
  pub handle-nothing :
      (r : Request) (s : State c ink)
      → asks_nothing contract r ≡ true
      → handle c ink contract s.storage.owner r s ≡ (ok tt, s)
  unfolding handle Messages.transfer Messages.transfer_from Messages.approve
      Messages.increase_allowance Messages.decrease_allowance Messages.mint Messages.burn
      Messages.transfer_ownership Messages.ensure_owner
  handle-nothing (Request.transfer to value d) s n = rw (==_refl s.storage.owner, n) refl
  handle-nothing (Request.transfer_ownership owner) s n = absurd cc
  handle-nothing _ s n = rw (==_refl s.storage.owner, n) refl

  -- A request that fails emits no event.
  pub handle-events_of_failure :
      (caller : AccountId) (r : Request) (s : State c ink) {x : Psp22Error} {s' : State c ink}
      → handle c ink contract caller r s ≡ (err x, s')
      → s'.outside.events ≡ s.outside.events
  unfolding handle Messages.transfer Messages.transfer_from Messages.approve
      Messages.increase_allowance Messages.decrease_allowance Messages.mint Messages.burn
      Messages.transfer_ownership Messages.ensure_owner Messages.send_transfer
      Messages.send_transfer_from Messages.send_approve Messages.send_increase
      Messages.send_decrease Messages.send_mint Messages.send_burn Messages.allowance
  handle-events_of_failure caller (Request.transfer to value d) s h = ground arith
  handle-events_of_failure caller _ s h = ground arith

  -- The allowance that the chain reports after the request's call of the chain.
  abbrev pub reported : Request → State c ink → Balance
  reported (Request.transfer_from from to value _) s =
      let id = s.storage.id in
      let t = (Fungibles.transfer_from c ink id from to value s.outside.chain).1 in
      unwrap_or (Fungibles.allowance c ink id from contract t).0 0
  reported (Request.increase_allowance spender value) s =
      let id = s.storage.id in
      let t = (Fungibles.increase_allowance c ink id spender value s.outside.chain).1 in
      unwrap_or (Fungibles.allowance c ink id contract spender t).0 0
  reported (Request.decrease_allowance spender value) s =
      let id = s.storage.id in
      let t = (Fungibles.decrease_allowance c ink id spender value s.outside.chain).1 in
      unwrap_or (Fungibles.allowance c ink id contract spender t).0 0
  reported _ s = 0

  -- A request that asks for something and succeeds emits exactly its announced events, with the
  -- allowance that the chain reports after the request's call.
  pub handle-announced :
      (caller : AccountId) (r : Request) (s : State c ink) {s' : State c ink}
      → asks_nothing contract r ≡ false
      → handle c ink contract caller r s ≡ (ok tt, s')
      → s'.outside.events ≡ announced contract (reported r s) r ++ s.outside.events
  unfolding handle Messages.transfer Messages.transfer_from Messages.approve
      Messages.increase_allowance Messages.decrease_allowance Messages.mint Messages.burn
      Messages.transfer_ownership Messages.ensure_owner Messages.send_transfer
      Messages.send_transfer_from Messages.send_approve Messages.send_increase
      Messages.send_decrease Messages.send_mint Messages.send_burn Messages.allowance
  handle-announced caller (Request.transfer to value d) s n h = ground arith
  handle-announced caller _ s n h = ground arith

  -- A request that asks for nothing succeeds for the owner, and nothing happens: there is no call
  -- of the chain and no event. And a request that fails emits no event.
  pub handle-quiet :
      (caller : AccountId) (r : Request) (s : State c ink)
      → (caller ≡ s.storage.owner
          → asks_nothing contract r ≡ true
          → handle c ink contract caller r s ≡ (ok tt, s))
        × ((x : Psp22Error) (s' : State c ink)
            → handle c ink contract caller r s ≡ (err x, s')
            → s'.outside.events ≡ s.outside.events)
  handle-quiet caller r s = (
    λ owns nothing. ap (λ who. handle c ink contract who r s) owns ∙ handle-nothing r s nothing,
    λ x s' failed. handle-events_of_failure caller r s failed,
  )

-- ===== src/Chain/Tokens/Told.antt =====
-- The events of the contract against those of the fungibles pallet: pop-api/examples/fungibles/lib.rs
-- against pallets/api/src/fungibles/mod.rs.
use pop_node.Prelude.{
  ◌≡◌, ◌⊎◌, sym, ap, ◌∙◌, inl, inr, true, ◌==◌, List, [], ◌∷◌, ◌++◌, map, ℕ, some, ok, err,
}
use pop_node.Frame.{AccountId, Balance}
use pop_node.Extension.Environment.{Environment}
use pop_node.Api.Fungibles.Types
use pop_node.Api.Fungibles.Types.{Call, Read, ReadResult, ErrorWithPostInfo}
use pop_node.Api.Fungibles.State
use pop_node.Api.Fungibles.Allowance.{ApprovalLaws}
use pop_node.Api.Fungibles.Events.{events_of}
use pop_node.Runtime.Config.{Host}
use pop_node.Runtime.Errors.{IsDispatchError, IsOther}
use pop_node.PopApi.Ink.{Ink}
use pop_node.PopApi.Events.{Event}
use pop_node.Contract.{State}
use pop_node.Contract.Ownership.{Request, handle}
use pop_node.Contract.Events.{asks_nothing, announced, handle-announced}
use pop_node.Contract.Sending.{requested, calls_of}
use pop_node.Chain.{Dispatches, Executes}
use pop_node.Chain.Calls.{dispatched}
use pop_node.Chain.Tokens.{CanHandle}
use pop_node.Chain.Tokens.Announcing.{
  told, of_own, requested-eq-cons, allowance_is, made-answered, made-events, made-deposited,
}

module _ (e : Environment) {Other : Type 0} (h : Host e Other) (ink : Ink)
    (pallet : e.State → State.State h.assets) (f : Dispatches e h pallet)
    (c : Executes e h ink pallet) (contract : AccountId) where
  -- Given the documented behaviour of pallet-contracts, FRAME and pallet-assets, a message that
  -- succeeds after a call of the pallet, other than `transfer_from`, emits exactly the events that the
  -- pallet deposits for that call, without the token; or the pallet failed with
  -- `DispatchError::Other`, whose status code is that of success, and nothing in it has changed.
  pub message-told :
      (caller : AccountId) (r : Request) (x : Call) (s : State h.scale ink)
      → ApprovalLaws h.assets
      → c.address s.outside.chain ≡ contract
      → CanHandle e h ink pallet f c contract caller r s
      → requested contract caller s.storage r ≡ x ∷ []
      → of_own r ≡ true
      → let run = dispatched e h ink pallet f c x s.outside.chain in
        let result = handle h.scale ink contract caller r s in
        let ledger = c.ledger result.1.outside.chain in
        let events = events_of h.assets contract x ledger.assets in
        ((failure : ErrorWithPostInfo) → run.0 ≡ err failure → IsDispatchError failure.error)
        → result.0 ≡ ok tt
        → ((ledger.events ≡ events ++ (c.ledger s.outside.chain).events)
            × (result.1.outside.events ≡ map told events ++ s.outside.events))
          ⊎ ((failure : ErrorWithPostInfo) × (run.0 ≡ err failure)
              × IsOther failure.error
              × (ledger ≡ c.ledger s.outside.chain))
  message-told caller r x s laws at can q own ranged done =
      let (p, left) = made-answered e h ink pallet f c contract caller r x s can q done in
      elim (made-deposited e h ink pallet f c contract caller r x s can q laws at ranged done) [
        | inr failed ↦ inr failed
        | inl deposited ↦ inl (
          deposited,
          made-events e h ink pallet f c contract caller r x s can q own done
              ∙ ap (λ l. map told (events_of h.assets contract x l.assets) ++ s.outside.events)
                  (sym left),
        )
      ]

  -- Given the documented behaviour of pallet-contracts, FRAME and pallet-assets, after a
  -- `transfer_from` that makes its call and succeeds, the contract and the pallet announce a transfer of
  -- the same value to the same account, but the pallet from the account that the tokens were taken from
  -- and the contract from itself; and the contract names the allowance that it has left. Or the pallet
  -- failed with `DispatchError::Other`, and nothing in it has changed.
  pub transfer_from-told :
      (caller from to : AccountId) (v : Balance) (extra : List ℕ) (s : State h.scale ink)
      → ApprovalLaws h.assets
      → c.address s.outside.chain ≡ contract
      → CanHandle e h ink pallet f c contract caller (Request.transfer_from from to v extra) s
      → let id = s.storage.id in
        let x = Call.transfer_from id from to v in
        let r = Request.transfer_from from to v extra in
        let run = dispatched e h ink pallet f c x s.outside.chain in
        let result = handle h.scale ink contract caller r s in
        let ledger = c.ledger result.1.outside.chain in
        let left = h.assets.allowance ledger.assets id from contract in
        requested contract caller s.storage r ≡ x ∷ []
        → ((failure : ErrorWithPostInfo) → run.0 ≡ err failure → IsDispatchError failure.error)
        → result.0 ≡ ok tt
        → ((ledger.events
              ≡ Types.Event.transfer id (some from) (some to) v ∷ (c.ledger s.outside.chain).events)
            × (result.1.outside.events
                ≡ Event.approval from contract left
                  ∷ Event.transfer (some contract) (some to) v
                  ∷ s.outside.events))
          ⊎ ((failure : ErrorWithPostInfo) × (run.0 ≡ err failure)
              × IsOther failure.error
              × (ledger ≡ c.ledger s.outside.chain))
  transfer_from-told caller from to v extra s laws at can q ranged done =
      let id = s.storage.id in
      let r = Request.transfer_from from to v extra in
      let x = Call.transfer_from id from to v in
      let result = handle h.scale ink contract caller r s in
      let (nothing, _) =
        requested-eq-cons (s.storage.owner == caller) (asks_nothing contract r) (calls_of id r) x
          q in
      let (p, left) = made-answered e h ink pallet f c contract caller r x s can q done in
      let reads = allowance_is e h ink pallet f c contract id from contract _ (can.read x q p) in
      elim (made-deposited e h ink pallet f c contract caller r x s can q laws at ranged done) [
        | inr failed ↦ inr failed
        | inl deposited ↦ inl (
          deposited,
          handle-announced h.scale ink contract caller r s nothing (λ i. (done i, result.1))
              ∙ ap (λ n. announced contract n r ++ s.outside.events)
                  (reads ∙ ap (λ l. h.assets.allowance l.assets id from contract) (sym left)),
        )
      ]

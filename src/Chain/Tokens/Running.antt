-- ===== src/Chain/Tokens/Running.antt =====
-- What the messages of the contract do to the fungibles pallet (pop-api/examples/fungibles/lib.rs).
use mathlib.Core.Path.{subst}
use mathlib.Core.List.{map-append}
use pop_node.Prelude.{
  committed-eq-ok, committed-eq-err, ◌≡◌, refl, sym, ap, ◌∙◌, inl, inr, List, [], ◌∷◌, Result,
  Result-cases,
}
use pop_node.Frame.{AccountId, TokenId}
use pop_node.Extension.Environment.{Environment}
use pop_node.Api.Fungibles.Types.{Read}
use pop_node.Api.Fungibles.State
use pop_node.Api.Fungibles.Running.{run, run-append}
use pop_node.Runtime.Config.{Host}
use pop_node.PopApi.Ink.{Ink}
use pop_node.PopApi.Fungibles
use pop_node.PopApi.Errors.{Psp22Error}
use pop_node.Contract.{State}
use pop_node.Contract.Ownership.{Request, handle, handle-id}
use pop_node.Contract.Sending.{requested, after, Handled, handled}
use pop_node.Chain.{Dispatches, Executes}
use pop_node.Chain.Calls.{send_call-failure, send_call-address}
use pop_node.Chain.Reads.{ask-reads, ask-address}
use pop_node.Chain.Sessions.{Affords, calls_of, send_all, send_all-run}
use pop_node.Chain.Tokens.{CanRead, CanFollow, CanHandle, CanLive, next, life, called}

module _ (e : Environment) {Other : Type 0} (h : Host e Other) (ink : Ink)
    (pallet : e.State → State.State h.assets) (f : Dispatches e h pallet)
    (c : Executes e h ink pallet) (contract : AccountId) where
  -- A read of an allowance changes neither the pallet nor the contract's address.
  allowance-keeps :
      (id : TokenId) (o d : AccountId) (t : ink.State)
      → CanRead e h ink pallet f c contract (Read.allowance id o d) t
      → let t' = (Fungibles.allowance h.scale ink id o d t).1 in
        (c.ledger t' ≡ c.ledger t) × (c.address t' ≡ c.address t)
  allowance-keeps id o d t (r, ranged, pays) =
      let query = Read.allowance id o d in
      (
        (ask-reads e h ink pallet f c query t r ranged pays).1,
        ask-address e h ink pallet f c query t r ranged pays,
      )

  pub after-keeps :
      (id : TokenId) (r : Request) (t : ink.State)
      → CanFollow e h ink pallet f c contract id r t
      → let t' = after h.scale ink contract id r t in
        (c.ledger t' ≡ c.ledger t) × (c.address t' ≡ c.address t)
  after-keeps id (Request.transfer_from from to value _) t can =
      allowance-keeps id from contract t can
  after-keeps id (Request.increase_allowance d value) t can = allowance-keeps id contract d t can
  after-keeps id (Request.decrease_allowance d value) t can = allowance-keeps id contract d t can
  after-keeps id (Request.transfer to value _) t can = (refl, refl)
  after-keeps id (Request.approve d value) t can = (refl, refl)
  after-keeps id (Request.mint who value) t can = (refl, refl)
  after-keeps id (Request.burn who value) t can = (refl, refl)
  after-keeps id (Request.transfer_ownership owner) t can = (refl, refl)

  module _ (caller : AccountId) (r : Request) (s : State h.scale ink) where
    abbrev made : Result Psp22Error (Unit {0}) × State h.scale ink
    made = handle h.scale ink contract caller r s

    abbrev reverted : State h.scale ink
    reverted = next e h ink pallet f c contract caller r s

    pub next-id : reverted.storage.id ≡ s.storage.id
    next-id = elim (Result-cases made.0) [
      | inl (a, p) ↦
          ap (λ t. t.storage.id) (committed-eq-ok made s p)
          ∙ handle-id h.scale ink contract caller r s
      | inr (x, p) ↦ ap (λ t. t.storage.id) (committed-eq-err made s p)
    ]

    reverted-quiet : made.1.outside ≡ s.outside → reverted.outside ≡ s.outside
    reverted-quiet kept = elim (Result-cases made.0) [
      | inl (a, p) ↦ ap (λ t. t.outside) (committed-eq-ok made s p) ∙ kept
      | inr (x, p) ↦ ap (λ t. t.outside) (committed-eq-err made s p)
    ]

    -- A message leaves the pallet as its calls do, and a failure reverts nothing that the pallet has
    -- kept.
    next-send_all :
        CanHandle e h ink pallet f c contract caller r s
        → let calls = requested contract caller s.storage r in
          let t = reverted.outside.chain in
          (c.ledger t ≡ c.ledger (send_all e h ink pallet f c calls s.outside.chain))
          × (c.address t ≡ c.address s.outside.chain)
    unfolding send_all Affords
    next-send_all can = elim (handled h.scale ink contract caller r s) [
      | Handled.quiet q kept ↦
          let same = ap (λ o. o.chain) (reverted-quiet kept) in
          (
            ap c.ledger same
                ∙ ap (λ xs. c.ledger (send_all e h ink pallet f c xs s.outside.chain)) (sym q),
            ap c.address same,
          )
      | Handled.refused x code q p failed left ↦
          let same = ap (λ t. t.outside.chain) (committed-eq-err made s failed) in
          let (ranged, pays, _) =
            subst (λ xs. Affords e h ink pallet f c xs s.outside.chain) q can.calls in
          let (_, _, unchanged, _) =
            send_call-failure e h ink pallet f c x s.outside.chain ranged pays p in
          (
            ap c.ledger same
                ∙ sym unchanged
                ∙ ap (λ xs. c.ledger (send_all e h ink pallet f c xs s.outside.chain)) (sym q),
            ap c.address same,
          )
      | Handled.sent x q p done left ↦
          let same = ap (λ t. t.outside.chain) (committed-eq-ok made s done) ∙ left in
          let (ranged, pays, _) =
            subst (λ xs. Affords e h ink pallet f c xs s.outside.chain) q can.calls in
          let (kept, address) = after-keeps s.storage.id r _ (can.read x q p) in
          (
            ap c.ledger same
                ∙ kept
                ∙ ap (λ xs. c.ledger (send_all e h ink pallet f c xs s.outside.chain)) (sym q),
            ap c.address same
                ∙ address
                ∙ send_call-address e h ink pallet f c x s.outside.chain ranged pays,
          )
    ]

    pub next-run :
        CanHandle e h ink pallet f c contract caller r s
        → c.address s.outside.chain ≡ contract
        → let calls = requested contract caller s.storage r in
          let t = reverted.outside.chain in
          (c.ledger t
            ≡ run h.assets h.weights
                (calls_of e h ink pallet f c contract calls)
                (c.ledger s.outside.chain))
          × (c.address t ≡ contract)
    next-run can at =
        let calls = requested contract caller s.storage r in
        let (kept, address) = next-send_all can in
        (
          kept
              ∙ send_all-run e h ink pallet f c calls s.outside.chain can.calls
              ∙ ap
                  (λ who.
                    run h.assets h.weights (calls_of e h ink pallet f c who calls)
                      (c.ledger s.outside.chain))
                  at,
          address ∙ at,
        )

  -- Given the documented behaviour of pallet-contracts and FRAME, any sequence of messages that the
  -- contract can handle, from any callers, the failing ones reverted, leaves the pallet in the state
  -- that the pallet's functions lead to which the messages of whoever is the owner by then ask for,
  -- called in this order at the contract's address, and no other.
  pub life-run :
      (messages : List (AccountId × Request)) (s : State h.scale ink)
      → c.address s.outside.chain ≡ contract
      → CanLive e h ink pallet f c contract messages s
      → c.ledger (life e h ink pallet f c contract messages s).outside.chain
        ≡ run h.assets h.weights
            (calls_of e h ink pallet f c contract (called e h ink pallet f c contract messages s))
            (c.ledger s.outside.chain)
  unfolding life called CanLive run
  life-run [] s at can = refl
  life-run ((caller, r) ∷ messages) s at (can, cans) =
      let s' = next e h ink pallet f c contract caller r s in
      let calls = requested contract caller s.storage r in
      let others = called e h ink pallet f c contract messages s' in
      let (ran, address) = next-run caller r s can at in
      life-run messages s' address cans
      ∙ ap (run h.assets h.weights (calls_of e h ink pallet f c contract others)) ran
      ∙ sym (
          run-append h.assets h.weights (calls_of e h ink pallet f c contract calls)
            (calls_of e h ink pallet f c contract others) (c.ledger s.outside.chain))
      ∙ ap (λ xs. run h.assets h.weights xs (c.ledger s.outside.chain))
          (sym (map-append (λ x. (f.signed contract, x)) calls others))

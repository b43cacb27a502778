-- ===== src/Chain/Approvals.antt =====
-- `approve` from the contract to pallet-assets: pop-api/src/v0/fungibles/mod.rs against
-- pallets/api/src/fungibles/mod.rs.
use pop_node.Prelude.{committed, ◌≡◌, ◌⊎◌, inl, inr, true, false, ap, ◌∙◌, ok, err, ◌∷◌}
use pop_node.Frame.{AccountId, TokenId, Balance}
use pop_node.Extension.Environment.{Environment}
use pop_node.Api.Fungibles.Types.{Call, Event, ErrorWithPostInfo}
use pop_node.Api.Fungibles.State.{State}
use pop_node.Api.Fungibles.Dispatch.{dispatch}
use pop_node.Api.Fungibles.Allowance.{ApprovalLaws, approve_sets}
use pop_node.Api.Fungibles.Success.{permits, approve-Decided}
use pop_node.Runtime.Config.{Host}
use pop_node.Runtime.Versioning.{v0_error}
use pop_node.Primitives.{to_u32}
use pop_node.PopApi.{from_status_code}
use pop_node.PopApi.Ink.{Ink}
use pop_node.PopApi.Fungibles
use pop_node.PopApi.Requests.{CallInRange}
use pop_node.Chain.{Dispatches, Executes, Pays, code_of}
use pop_node.Chain.Calls.{entered, dispatched, send_call-dispatches}

module _ (e : Environment) {Other : Type 0} (h : Host e Other) (ink : Ink)
    (pallet : e.State → State h.assets) (f : Dispatches e h pallet)
    (c : Executes e h ink pallet) where
  -- Given the documented behaviour of pallet-contracts, FRAME and pallet-assets, an `approve` of a
  -- contract that can pay for it, its arguments within their types: where pallet-assets permits the
  -- calls that take the allowance from what it is to the value, it succeeds, the spender's allowance
  -- from the contract is then exactly the value, and one event, which names the value, is added;
  -- where it does not, the pallet's function fails, the contract gets the status code of its error,
  -- and nothing in the pallet changes.
  pub send_approve-outcome :
      (t : TokenId) (d : AccountId) (v : Balance) (s : ink.State)
      → ApprovalLaws h.assets
      → CallInRange h.scale (Call.approve t d v)
      → Pays e h (Call.approve t d v) (entered e h ink pallet f c (Call.approve t d v) s)
      → let (result, s') = Fungibles.approve h.scale ink t d v s in
        let before = c.ledger s in
        let permitted =
          permits h.assets
            (f.signed (c.address s))
            t
            d
            v
            (h.assets.allowance before.assets t (c.address s) d)
            before.assets in
        ((permitted ≡ true)
          × (result ≡ ok tt)
          × (h.assets.allowance (c.ledger s').assets t (c.address s) d ≡ v)
          × ((c.ledger s').events ≡ Event.approval t (c.address s) d v ∷ before.events))
        ⊎ ((permitted ≡ false)
            × (failure : ErrorWithPostInfo) × ((dispatched e h ink pallet f c
                  (Call.approve t d v)
                  s).0
                ≡ err failure)
            × (result ≡ from_status_code (to_u32 (v0_error failure.error)))
            × (c.ledger s' ≡ before))
  unfolding dispatch from_status_code
  send_approve-outcome t d v s laws r pays =
      let call = Call.approve t d v in
      let o = f.signed (c.address s) in
      let (result, state) = send_call-dispatches e h ink pallet f c call s r pays in
      let run = dispatched e h ink pallet f c call s in
      elim (approve-Decided h.assets o t d h.weights (c.address s) v (c.ledger s)
        (f.signed_by (c.address s))) [
          | inl (permitted, w, q) ↦
              let (sets, event) =
                approve_sets h.assets h.weights laws o t d (c.address s) (f.signed_by (c.address s))
                  v (c.ledger s) (λ i. (q i, run.1)) in
              let kept = state ∙ ap (λ x. committed (x, run.1) (c.ledger s)) q in
              inl (
                permitted,
                result ∙ ap (λ x. from_status_code (code_of x)) q,
                ap (λ x. h.assets.allowance x.assets t (c.address s) d) kept ∙ sets,
                ap (λ x. x.events) kept ∙ event,
              )
          | inr (refused, failure, q) ↦ inr (
            refused,
            failure,
            q,
            result ∙ ap (λ x. from_status_code (code_of x)) q,
            state ∙ ap (λ x. committed (x, run.1) (c.ledger s)) q,
          )
        ]

-- ===== src/Chain/Creators.antt =====
-- Who is told to have created a token: the contract of pop-api/integration-tests/contracts/fungibles/lib.rs
-- against pallets/api/src/fungibles/mod.rs.
use pop_node.Prelude.{◌≡◌, ◌⊎◌, inl, inr, refl, Option, ap, ◌∙◌, ◌∷◌, Result-cases, ok, err}
use pop_node.Frame.{AccountId, TokenId, Balance, Weight}
use pop_node.Extension.Environment.{Environment}
use pop_node.Api.Fungibles.Types
use pop_node.Api.Fungibles.Types.{Assets, WeightInfo, Call, ErrorWithPostInfo}
use pop_node.Api.Fungibles.State.{State}
use pop_node.Api.Fungibles.Calls
use pop_node.Api.Fungibles.Dispatch.{dispatch}
use pop_node.Runtime.Config.{Host}
use pop_node.Runtime.Errors.{IsDispatchError, IsOther}
use pop_node.PopApi.Ink.{Ink}
use pop_node.PopApi.Events.{Event}
use pop_node.PopApi.Requests.{CallInRange}
use pop_node.Contract.Tester.{Outside, forward, forward-create_ok}
use pop_node.Chain.{Dispatches, Executes, Pays}
use pop_node.Chain.Calls.{dispatched, entered, send_call-success}

-- The pallet names the signer as the creator.
create-created :
    (a : Assets) (w : WeightInfo) (o : a.Origin) (who : AccountId) (id : TokenId)
    (admin : AccountId) (m : Balance) (s : State a) {r : Option Weight}
    → a.ensure_signed o ≡ ok who
    → (dispatch a w o (Call.create id admin m) s).0 ≡ ok r
    → (dispatch a w o (Call.create id admin m) s).1.events
      ≡ Types.Event.created id who admin ∷ s.events
unfolding dispatch Calls.create
create-created a w o who id admin m s signed p =
    elim (Result-cases (a.create o id admin m s.assets).0) [
      | inl (u, q) ↦ rw (signed, q) refl
      | inr (x, q) ↦ absurd (cc (rw (signed, q) at p))
    ]

module _ (e : Environment) {Other : Type 0} (h : Host e Other) (ink : Ink)
    (pallet : e.State → State h.assets) (f : Dispatches e h pallet)
    (c : Executes e h ink pallet) where
  -- Given the documented behaviour of pallet-contracts and FRAME, where the arguments are within their
  -- types and the contract can pay: a `create` of the integration tests' contract that succeeds emits
  -- an event that names the admin as the token's creator, whoever that is, while the pallet's own
  -- event names the contract; or the pallet's function failed with `DispatchError::Other`, and the
  -- contract emits its event although the pallet is as it was.
  pub forward-created :
      (id : TokenId) (admin : AccountId) (m : Balance) (s : Outside h.scale ink)
      → let create = Call.create id admin m in
        let who = c.address s.chain in
        let before = c.ledger s.chain in
        let made = dispatched e h ink pallet f c create s.chain in
        let (result, s') = forward h.scale ink who create s in
        CallInRange h.scale create
        → Pays e h create (entered e h ink pallet f c create s.chain)
        → ((failure : ErrorWithPostInfo) → made.0 ≡ err failure → IsDispatchError failure.error)
        → result ≡ ok tt
        → (s'.events ≡ Event.created id admin admin ∷ s.events)
          × (((c.ledger s'.chain).events ≡ Types.Event.created id who admin ∷ before.events)
              ⊎ ((failure : ErrorWithPostInfo) × (made.0 ≡ err failure)
                  × IsOther failure.error
                  × (c.ledger s'.chain ≡ before)))
  forward-created id admin m s range pays ranged done =
      let create = Call.create id admin m in
      let who = c.address s.chain in
      let (sent, after) = forward-create_ok h.scale ink who id admin m s done in
      (
        ap (λ t. t.events) after,
        elim (send_call-success e h ink pallet f c create s.chain range pays ranged sent) [
          | inl (weight, succeeds, kept) ↦ inl (
              ap (λ t. (c.ledger t.chain).events) after
              ∙ ap (λ t. t.events) kept
              ∙ create-created h.assets h.weights (f.signed who) who id admin m (c.ledger s.chain)
                  (f.signed_by who) succeeds)
          | inr (failure, fails, other, kept) ↦
              inr (failure, fails, other, ap (λ t. c.ledger t.chain) after ∙ kept)
        ],
      )

-- ===== src/Chain/Tokens/Creating.antt =====
-- The constructor of the contract of one token (pop-api/examples/fungibles/lib.rs) on the chain, and its
-- messages from then on.
use pop_node.Prelude.{
  ◌≡◌, ◌⊎◌, inl, inr, refl, sym, ap, ◌∙◌, List, ◌∷◌, Option, Result, Result-cases, ok, err,
  committed,
}
use pop_node.Frame.{AccountId, TokenId, Balance, Weight}
use pop_node.Primitives.{to_u32}
use pop_node.Extension.Environment.{Environment}
use pop_node.Api.Codec.{Scale}
use pop_node.Api.Fungibles.Types.{Call, ErrorWithPostInfo}
use pop_node.Api.Fungibles.State
use pop_node.Api.Fungibles.Running.{run}
use pop_node.Api.Fungibles.Dispatch.{dispatch}
use pop_node.Runtime.Config.{Host}
use pop_node.Runtime.Errors.{IsDispatchError, IsOther}
use pop_node.Runtime.Versioning.{v0_error}
use pop_node.PopApi.{StatusCode, from_status_code}
use pop_node.PopApi.Ink.{Ink}
use pop_node.PopApi.Events.{Event}
use pop_node.PopApi.Errors.{Psp22Error, psp22_error}
use pop_node.PopApi.Requests.{send_call, CallInRange}
use pop_node.Contract.{State, Fungible, Outside, new}
use pop_node.Contract.Ownership.{Request}
use pop_node.Chain.{Dispatches, Executes, Pays, code_of}
use pop_node.Chain.Calls.{
  from_status_code-eq-err, dispatched, entered, send_call-dispatches, send_call-success,
  send_call-failure, send_call-address,
}
use pop_node.Chain.Sessions.{calls_of}
use pop_node.Chain.Tokens.{CanLive, life, called}
use pop_node.Chain.Tokens.Running.{life-run}

module _ (s : Scale) (ink : Ink) (caller contract : AccountId) (id : TokenId) (m : Balance)
    (o : Outside s ink) where
  abbrev creation : Call
  creation = Call.create id contract m

  abbrev after_creation : ink.State
  after_creation = (send_call s ink creation o.chain).1

  pub new-eq-ok :
      (send_call s ink creation o.chain).0 ≡ ok tt
      → new s ink caller contract id m o ≡ (
        ok (record { id = id; owner = caller }),
        record { chain = after_creation; events = Event.created id contract contract ∷ o.events },
      )
  unfolding new
  new-eq-ok p = rw p refl

  new-eq-err :
      {code : StatusCode}
      → (send_call s ink creation o.chain).0 ≡ err code
      → new s ink caller contract id m o
        ≡ (err (psp22_error code), record o { chain = after_creation })
  unfolding new
  new-eq-err p = rw p refl

module _ (e : Environment) {Other : Type 0} (h : Host e Other) (ink : Ink)
    (pallet : e.State → State.State h.assets) (f : Dispatches e h pallet)
    (c : Executes e h ink pallet) (caller contract : AccountId) (id : TokenId) (m : Balance)
    (o : Outside h.scale ink) where
  abbrev pub create : Call
  create = Call.create id contract m

  abbrev pub made : Result Psp22Error Fungible × Outside h.scale ink
  made = new h.scale ink caller contract id m o

  -- The creation at the pallet.
  abbrev pub created : Result ErrorWithPostInfo (Option Weight) × State.State h.assets
  created = dispatched e h ink pallet f c create o.chain

  -- Given the documented behaviour of pallet-contracts and FRAME, where the arguments are within their
  -- types and the contract can pay: the constructor succeeds with a contract of the token whose owner
  -- is the caller, announces the contract as the token's creator and admin, and the pallet has created
  -- the token, or failed with `DispatchError::Other` and is as it was; or else the pallet failed, the
  -- constructor returns its error as `Psp22Error`, announces nothing and leaves the pallet as it was.
  pub new-outcome :
      CallInRange h.scale create
      → Pays e h create (entered e h ink pallet f c create o.chain)
      → ((failure : ErrorWithPostInfo) → created.0 ≡ err failure → IsDispatchError failure.error)
      → ((made.0 ≡ ok (record { id = id; owner = caller }))
          × (made.1.events ≡ Event.created id contract contract ∷ o.events)
          × (((weight : Option Weight) × (created.0 ≡ ok weight)
                × (c.ledger made.1.chain ≡ created.1))
              ⊎ ((failure : ErrorWithPostInfo) × (created.0 ≡ err failure)
                  × IsOther failure.error
                  × (c.ledger made.1.chain ≡ c.ledger o.chain))))
        ⊎ ((failure : ErrorWithPostInfo) × (created.0 ≡ err failure)
            × (made.0 ≡ err (psp22_error (to_u32 (v0_error failure.error))))
            × (made.1.events ≡ o.events)
            × (c.ledger made.1.chain ≡ c.ledger o.chain))
  new-outcome range pays ranged = elim (Result-cases (send_call h.scale ink create o.chain).0) [
    | inl (tt, p) ↦
        let same = new-eq-ok h.scale ink caller contract id m o p in
        inl (
          ap (λ r. r.0) same,
          ap (λ r. r.1.events) same,
          rw same (send_call-success e h ink pallet f c create o.chain range pays ranged p),
        )
    | inr (code, p) ↦
        let same = new-eq-err h.scale ink caller contract id m o p in
        let (failure, fails, kept, _) =
          send_call-failure e h ink pallet f c create o.chain range pays p in
        let (answer, _) = send_call-dispatches e h ink pallet f c create o.chain range pays in
        let answered : from_status_code (code_of created.0) ≡ err code = sym answer ∙ p in
        let coded = ap (λ r. from_status_code (code_of r)) (sym fails) ∙ answered in
        inr (
          failure,
          fails,
          ap (λ r. r.0) same
              ∙ ap (λ n. err (psp22_error n)) (sym (from_status_code-eq-err _ coded).0),
          ap (λ r. r.1.events) same,
          rw same kept,
        )
  ]

  -- Given the documented behaviour of pallet-contracts and FRAME, where the arguments of the
  -- constructor are within their types, the contract can pay, and the constructor succeeds: the
  -- contract has the token and the caller for an owner; and after any messages that it can handle,
  -- from any callers, the pallet is as its functions leave it that create the token and then do what
  -- the messages of whoever is the owner by then ask for, in this order.
  pub new-run :
      (messages : List (AccountId × Request)) {storage : Fungible}
      → let s : State h.scale ink = record { storage = storage; outside = made.1 } in
        c.address o.chain ≡ contract
        → CallInRange h.scale create
        → Pays e h create (entered e h ink pallet f c create o.chain)
        → made.0 ≡ ok storage
        → CanLive e h ink pallet f c contract messages s
        → (storage ≡ record { id = id; owner = caller })
          × (c.ledger (life e h ink pallet f c contract messages s).outside.chain
              ≡ run h.assets h.weights
                  (calls_of e h ink pallet f c contract
                    (create ∷ called e h ink pallet f c contract messages s))
                  (c.ledger o.chain))
  unfolding run
  new-run messages {storage} at range pays done can =
      elim (Result-cases (send_call h.scale ink create o.chain).0) [
        | inr (code, p) ↦ absurd (cc (done, new-eq-err h.scale ink caller contract id m o p))
        | inl (tt, p) ↦
            let same = new-eq-ok h.scale ink caller contract id m o p in
            let chain = ap (λ r. r.1.chain) same in
            let s : State h.scale ink = record { storage = storage; outside = made.1 } in
            let calls =
              calls_of e h ink pallet f c contract
                (called e h ink pallet f c contract messages s) in
            let (_, state) = send_call-dispatches e h ink pallet f c create o.chain range pays in
            let stays = send_call-address e h ink pallet f c create o.chain range pays in
            (
              cc (done, ap (λ r. r.0) same),
              life-run e h ink pallet f c contract messages s (ap c.address chain ∙ stays ∙ at) can
                  ∙ ap (run h.assets h.weights calls) (
                      ap c.ledger chain
                      ∙ state
                      ∙ ap
                          (λ who.
                            committed
                              (dispatch h.assets h.weights (f.signed who) create (c.ledger o.chain))
                              (c.ledger o.chain))
                          at),
            )
      ]

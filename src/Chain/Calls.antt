-- ===== src/Chain/Calls.antt =====
-- A function of the contract's library, from the contract to the pallet and back:
-- pop-api/src/v0/fungibles/mod.rs, extension/src, runtime/devnet/src/config/api and
-- pallets/api/src/fungibles/mod.rs together.
use pop_node.Prelude.{
  committed, ◌≡◌, ◌≢◌, ◌⊎◌, refl, arith, ap, sym, ◌∙◌, Option, Result, Result-cases, ok, err, inl,
  inr,
}
use pop_node.Frame.{Weight}
use pop_node.Extension.Environment.{Environment}
use pop_node.Api.Fungibles.Types.{Call, ErrorWithPostInfo}
use pop_node.Api.Fungibles.State.{State}
use pop_node.Api.Fungibles.Dispatch.{dispatch}
use pop_node.Runtime.Config.{Host}
use pop_node.Runtime.Versioning.{v0_error}
use pop_node.Runtime.Errors.{IsDispatchError, IsOther, v0_error-HasBytes, v0_error-other}
use pop_node.Primitives.{from_u32}
use pop_node.Primitives.StatusCode.{from_u32-to_u32, to_u32-zero_iff}
use pop_node.PopApi.{StatusCode, from_status_code, into_error}
use pop_node.PopApi.Ink.{Ink}
use pop_node.PopApi.Fungibles.{build_dispatch}
use pop_node.PopApi.Requests.{sent, send_call, send_call-answer, CallInRange}
use pop_node.Chain.{Dispatches, Executes, Pays, code_of}
use pop_node.Chain.Steps.{run, call_api-code}

pub from_status_code-eq-err :
    (n : StatusCode) {code : StatusCode} → from_status_code n ≡ err code → (n ≡ code) × (n ≢ 0)
unfolding from_status_code
from_status_code-eq-err n p = (ground arith, λ z. ground arith)

from_status_code-eq-ok : (n : StatusCode) → from_status_code n ≡ ok tt → n ≡ 0
unfolding from_status_code
from_status_code-eq-ok n p = ground arith

module _ (e : Environment) {Other : Type 0} (h : Host e Other) (ink : Ink)
    (pallet : e.State → State h.assets) (f : Dispatches e h pallet) (c : Executes e h ink pallet)
    (x : Call) (s : ink.State) where
  -- The environment in which the extension runs, and the pallet's function at the contract's address.
  abbrev pub entered : e.State
  entered = c.enter (build_dispatch (sent h.scale x).0) (sent h.scale x).1 s

  abbrev pub dispatched : Result ErrorWithPostInfo (Option Weight) × State h.assets
  dispatched = dispatch h.assets h.weights (f.signed (c.address s)) x (c.ledger s)

  run-entered : run e h pallet c.request f x entered ≡ dispatched
  run-entered =
      ap (λ who. dispatch h.assets h.weights (f.signed who) x (pallet entered))
        (c.enter_address _ _ s)
      ∙ ap (dispatch h.assets h.weights (f.signed (c.address s)) x) (c.enter_keeps _ _ s)

  -- Given the documented behaviour of pallet-contracts and FRAME, a function of the contract's
  -- library whose arguments are within their types and which the contract can pay for does what
  -- the pallet's function of that name does at the contract's address: its result is the status
  -- code of the pallet's result, and the pallet's state is the one that function leaves, or the old
  -- one where it fails.
  pub send_call-dispatches :
      CallInRange h.scale x
      → Pays e h x entered
      → ((send_call h.scale ink x s).0 ≡ from_status_code (code_of dispatched.0))
        × (c.ledger (send_call h.scale ink x s).1 ≡ committed dispatched (c.ledger s))
  send_call-dispatches r pays =
      let (env, runs, kept) =
        call_api-code e h pallet c.request f x entered r (c.receives _ _ s) pays in
      let invoked = c.converges _ _ s _ env runs in
      let answered = send_call-answer h.scale ink x s in
      (
        ap (λ t. t.0) answered
            ∙ ap (λ t. from_status_code t.0.0) invoked
            ∙ ap (λ t. from_status_code (code_of t.0)) run-entered,
        ap (λ t. c.ledger t.1) answered
            ∙ ap (λ t. c.ledger t.1) invoked
            ∙ c.leave_keeps s env
            ∙ kept
            ∙ ap (λ t. committed t (pallet entered)) run-entered
            ∙ ap (committed dispatched) (c.enter_keeps _ _ s),
      )

  -- The contract's address stays.
  pub send_call-address :
      CallInRange h.scale x
      → Pays e h x entered
      → c.address (send_call h.scale ink x s).1 ≡ c.address s
  send_call-address r pays =
      let (env, runs, kept) =
        call_api-code e h pallet c.request f x entered r (c.receives _ _ s) pays in
      ap (λ t. c.address t.1) (send_call-answer h.scale ink x s)
      ∙ ap (λ t. c.address t.1) (c.converges _ _ s _ env runs)
      ∙ c.leave_address s env

  -- Given the documented behaviour of pallet-contracts and FRAME, for a call whose arguments are
  -- within their types and which the contract can pay for: where the library's function returns a
  -- status code as its error, the pallet's
  -- function failed and nothing in the pallet has changed; and the code reads as the pallet's
  -- error in version 0, its bytes in range.
  pub send_call-failure :
      {code : StatusCode}
      → CallInRange h.scale x
      → Pays e h x entered
      → (send_call h.scale ink x s).0 ≡ err code
      → (failure : ErrorWithPostInfo) × (dispatched.0 ≡ err failure)
        × (c.ledger (send_call h.scale ink x s).1 ≡ c.ledger s)
        × (IsDispatchError failure.error → into_error code ≡ v0_error failure.error)
  unfolding into_error
  send_call-failure {code = code} r pays p =
      let (result, state) = send_call-dispatches r pays in
      let q : from_status_code (code_of dispatched.0) ≡ err code = sym result ∙ p in
      elim (Result-cases dispatched.0) [
        | inl (a, succeeds) ↦ absurd ((from_status_code-eq-err _ (rw succeeds at q)).1 refl)
        | inr (failure, fails) ↦ (
          failure,
          fails,
          state ∙ ap (λ d. committed (d, dispatched.1) (c.ledger s)) fails,
          λ bytes.
              ap from_u32 (sym (from_status_code-eq-err _ (rw fails at q)).0)
              ∙ from_u32-to_u32 (v0_error failure.error) (v0_error-HasBytes failure.error bytes),
        )
      ]

  -- Given the documented behaviour of pallet-contracts and FRAME, for a call whose arguments are
  -- within their types and which the contract can pay for: where the library's function succeeds and
  -- errors have bytes in range, the
  -- pallet's function succeeded and its changes are in place; or it failed with
  -- `DispatchError::Other`, whose status code is that of success, and nothing has changed.
  pub send_call-success :
      CallInRange h.scale x
      → Pays e h x entered
      → ((failure : ErrorWithPostInfo) → dispatched.0 ≡ err failure → IsDispatchError failure.error)
      → (send_call h.scale ink x s).0 ≡ ok tt
      → ((weight : Option Weight) × (dispatched.0 ≡ ok weight)
          × (c.ledger (send_call h.scale ink x s).1 ≡ dispatched.1))
        ⊎ ((failure : ErrorWithPostInfo) × (dispatched.0 ≡ err failure)
            × IsOther failure.error
            × (c.ledger (send_call h.scale ink x s).1 ≡ c.ledger s))
  send_call-success r pays ranged p =
      let (result, state) = send_call-dispatches r pays in
      let q : from_status_code (code_of dispatched.0) ≡ ok tt = sym result ∙ p in
      elim (Result-cases dispatched.0) [
        | inl (weight, succeeds) ↦
            inl (
              weight,
              succeeds,
              state ∙ ap (λ d. committed (d, dispatched.1) (c.ledger s)) succeeds,
            )
        | inr (failure, fails) ↦
            let bytes = v0_error-HasBytes failure.error (ranged failure fails) in
            let zero = from_status_code-eq-ok _ (rw fails at q) in
            inr (
              failure,
              fails,
              (v0_error-other failure.error).0
                  ((to_u32-zero_iff (v0_error failure.error) bytes).0 zero),
              state ∙ ap (λ d. committed (d, dispatched.1) (c.ledger s)) fails,
            )
      ]

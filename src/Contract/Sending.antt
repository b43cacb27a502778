-- ===== src/Contract/Sending.antt =====
-- Which call of the chain a message makes, and where it leaves the chain
-- (pop-api/examples/fungibles/lib.rs).
use pop_node.Prelude.{
  ◌≡◌, refl, ap, inl, inr, arith, false, ◌==◌, ==_iff, ==_refl, Bool-cases, Result-cases,
  if◌then◌else◌, List, [], ◌∷◌, ok, err, ◌&&◌, not,
}
use pop_node.Frame.{AccountId, TokenId}
use pop_node.Api.Codec.{Scale}
use pop_node.Api.Fungibles.Types.{Call}
use pop_node.PopApi.{StatusCode}
use pop_node.PopApi.Ink.{Ink}
use pop_node.PopApi.Fungibles
use pop_node.PopApi.Errors.{psp22_error}
use pop_node.PopApi.Requests.{send_call}
use pop_node.Contract.{Fungible, State}
use pop_node.Contract.Messages
use pop_node.Contract.Ownership.{Request, handle, handle-not_the_owner}
use pop_node.Contract.Events.{asks_nothing, handle-nothing}

-- The call of the pallet that a request is about.
abbrev pub calls_of : TokenId → Request → List Call
calls_of id (Request.transfer to value _) = Call.transfer id to value ∷ []
calls_of id (Request.transfer_from from to value _) = Call.transfer_from id from to value ∷ []
calls_of id (Request.approve spender value) = Call.approve id spender value ∷ []
calls_of id (Request.increase_allowance spender value) =
    Call.increase_allowance id spender value ∷ []
calls_of id (Request.decrease_allowance spender value) =
    Call.decrease_allowance id spender value ∷ []
calls_of id (Request.mint account value) = Call.mint id account value ∷ []
calls_of id (Request.burn account value) = Call.burn id account value ∷ []
calls_of id (Request.transfer_ownership owner) = []

-- The calls that a caller's request makes: only the owner's, and none where it asks for nothing.
abbrev pub requested : AccountId → AccountId → Fungible → Request → List Call
requested contract caller storage r =
    if storage.owner == caller && not (asks_nothing contract r) then calls_of storage.id r else []

module _ (c : Scale) (ink : Ink) (contract : AccountId) where
  -- The chain after the read that follows a call that succeeds, if one does.
  abbrev pub after : TokenId → Request → ink.State → ink.State
  after id (Request.transfer_from from to value _) t =
      (Fungibles.allowance c ink id from contract t).1
  after id (Request.increase_allowance spender value) t =
      (Fungibles.allowance c ink id contract spender t).1
  after id (Request.decrease_allowance spender value) t =
      (Fungibles.allowance c ink id contract spender t).1
  after id _ t = t

  -- What becomes of a request: it makes no call of the chain, or its one call fails and so does the
  -- message, or the call succeeds and so does the message.
  pub data Handled (caller : AccountId) (r : Request) (s : State c ink) : Type 0 where
    quiet :
        requested contract caller s.storage r ≡ []
        → (handle c ink contract caller r s).1.outside ≡ s.outside
        → Handled caller r s
    refused :
        (x : Call) (code : StatusCode)
        → requested contract caller s.storage r ≡ x ∷ []
        → (send_call c ink x s.outside.chain).0 ≡ err code
        → (handle c ink contract caller r s).0 ≡ err (psp22_error code)
        → (handle c ink contract caller r s).1.outside.chain ≡ (send_call c ink x s.outside.chain).1
        → Handled caller r s
    sent :
        (x : Call)
        → requested contract caller s.storage r ≡ x ∷ []
        → (send_call c ink x s.outside.chain).0 ≡ ok tt
        → (handle c ink contract caller r s).0 ≡ ok tt
        → (handle c ink contract caller r s).1.outside.chain
          ≡ after s.storage.id r (send_call c ink x s.outside.chain).1
        → Handled caller r s

  -- The owner's request that asks for something, from how its message treats the call's result.
  owner_sends :
      (r : Request) (x : Call) (s : State c ink)
      → asks_nothing contract r ≡ false
      → calls_of s.storage.id r ≡ x ∷ []
      → let made = handle c ink contract s.storage.owner r s in
        let answer = send_call c ink x s.outside.chain in
        (answer.0 ≡ ok tt
          → (made.0 ≡ ok tt) × (made.1.outside.chain ≡ after s.storage.id r answer.1))
        → ((code : StatusCode)
            → answer.0 ≡ err code
            → (made.0 ≡ err (psp22_error code)) × (made.1.outside.chain ≡ answer.1))
        → Handled s.storage.owner r s
  owner_sends r x s n p succeeds fails =
      let asked : requested contract s.storage.owner s.storage r ≡ x ∷ [] =
        rw (==_refl s.storage.owner, n) p in
      elim (Result-cases (send_call c ink x s.outside.chain).0) [
        | inl (u, q) ↦ let (k, l) = succeeds q in Handled.sent x asked q k l
        | inr (code, q) ↦ let (k, l) = fails code q in Handled.refused x code asked q k l
      ]

  owner_asks :
      (r : Request) (s : State c ink)
      → asks_nothing contract r ≡ false
      → Handled s.storage.owner r s
  unfolding handle Messages.transfer Messages.transfer_from Messages.approve
      Messages.increase_allowance Messages.decrease_allowance Messages.mint Messages.burn
      Messages.transfer_ownership Messages.ensure_owner Messages.send_transfer
      Messages.send_transfer_from Messages.send_approve Messages.send_increase
      Messages.send_decrease Messages.send_mint Messages.send_burn Messages.allowance
  owner_asks (Request.transfer to value d) s n =
      let id = s.storage.id in
      owner_sends (Request.transfer to value d) (Call.transfer id to value) s n refl
        (λ q. (rw (==_refl s.storage.owner, n, q) refl, rw (==_refl s.storage.owner, n, q) refl))
        (λ code q.
          (rw (==_refl s.storage.owner, n, q) refl, rw (==_refl s.storage.owner, n, q) refl))
  owner_asks (Request.transfer_from from to value d) s n =
      let id = s.storage.id in
      owner_sends (Request.transfer_from from to value d) (Call.transfer_from id from to value) s n
        refl
        (λ q. (rw (==_refl s.storage.owner, n, q) refl, rw (==_refl s.storage.owner, n, q) refl))
        (λ code q.
          (rw (==_refl s.storage.owner, n, q) refl, rw (==_refl s.storage.owner, n, q) refl))
  owner_asks (Request.approve spender value) s n =
      let id = s.storage.id in
      owner_sends (Request.approve spender value) (Call.approve id spender value) s n refl
        (λ q. (rw (==_refl s.storage.owner, n, q) refl, rw (==_refl s.storage.owner, n, q) refl))
        (λ code q.
          (rw (==_refl s.storage.owner, n, q) refl, rw (==_refl s.storage.owner, n, q) refl))
  owner_asks (Request.increase_allowance spender value) s n =
      let id = s.storage.id in
      owner_sends (Request.increase_allowance spender value)
        (Call.increase_allowance id spender value) s n refl
        (λ q. (rw (==_refl s.storage.owner, n, q) refl, rw (==_refl s.storage.owner, n, q) refl))
        (λ code q.
          (rw (==_refl s.storage.owner, n, q) refl, rw (==_refl s.storage.owner, n, q) refl))
  owner_asks (Request.decrease_allowance spender value) s n =
      let id = s.storage.id in
      owner_sends (Request.decrease_allowance spender value)
        (Call.decrease_allowance id spender value) s n refl
        (λ q. (rw (==_refl s.storage.owner, n, q) refl, rw (==_refl s.storage.owner, n, q) refl))
        (λ code q.
          (rw (==_refl s.storage.owner, n, q) refl, rw (==_refl s.storage.owner, n, q) refl))
  owner_asks (Request.mint account value) s n =
      let id = s.storage.id in
      owner_sends (Request.mint account value) (Call.mint id account value) s n refl
        (λ q. (rw (==_refl s.storage.owner, n, q) refl, rw (==_refl s.storage.owner, n, q) refl))
        (λ code q.
          (rw (==_refl s.storage.owner, n, q) refl, rw (==_refl s.storage.owner, n, q) refl))
  owner_asks (Request.burn account value) s n =
      let id = s.storage.id in
      owner_sends (Request.burn account value) (Call.burn id account value) s n refl
        (λ q. (rw (==_refl s.storage.owner, n, q) refl, rw (==_refl s.storage.owner, n, q) refl))
        (λ code q.
          (rw (==_refl s.storage.owner, n, q) refl, rw (==_refl s.storage.owner, n, q) refl))
  owner_asks (Request.transfer_ownership owner) s n =
      Handled.quiet (rw (==_refl s.storage.owner) refl) (rw (==_refl s.storage.owner) refl)

  -- Every message is one of the three.
  pub handled : (caller : AccountId) (r : Request) (s : State c ink) → Handled caller r s
  handled caller r s = elim (Bool-cases (s.storage.owner == caller)) [
    | inr other ↦
        Handled.quiet (rw other refl)
          (ap (λ t. t.1.outside) (handle-not_the_owner c ink contract caller r s (ground arith)))
    | inl same ↦ elim (Bool-cases (asks_nothing contract r)) [
      | inl nothing ↦ rw (← (==_iff s.storage.owner caller).0 same) (
          Handled.quiet (rw (==_refl s.storage.owner, nothing) refl)
            (ap (λ t. t.1.outside) (handle-nothing c ink contract r s nothing)))
      | inr something ↦ rw (← (==_iff s.storage.owner caller).0 same) (owner_asks r s something)
    ]
  ]

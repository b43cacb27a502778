-- ===== src/Chain/Tokens/Announcing.antt =====
-- The events of the contract and those of the fungibles pallet after a message that succeeds:
-- pop-api/examples/fungibles/lib.rs and pallets/api/src/fungibles/mod.rs.
use mathlib.Core.Path.{subst}
use pop_node.Prelude.{
  ◌≡◌, ◌⊎◌, refl, sym, ap, ◌∙◌, inl, inr, arith, true, false, Bool, Bool-cases, ◌==◌, List, [], ◌∷◌,
  ◌++◌, ◌&&◌, not, if◌then◌else◌, map, ok, err, Result, map_ok, unwrap_or,
}
use pop_node.Frame.{AccountId, TokenId, Balance}
use pop_node.Extension.Environment.{Environment}
use pop_node.Api.Fungibles.Types
use pop_node.Api.Fungibles.Types.{Call, Read, ReadResult, ErrorWithPostInfo}
use pop_node.Api.Fungibles.State
use pop_node.Api.Fungibles.Reads.{read}
use pop_node.Api.Fungibles.Allowance.{ApprovalLaws}
use pop_node.Api.Fungibles.Events.{events_of, dispatch-events}
use pop_node.Runtime.Config.{Host}
use pop_node.Runtime.Errors.{IsDispatchError, IsOther}
use pop_node.PopApi.Ink.{Ink}
use pop_node.PopApi.Fungibles
use pop_node.PopApi.Events.{Event}
use pop_node.PopApi.Errors.{Psp22Error}
use pop_node.PopApi.Requests.{send_call}
use pop_node.Contract.{State}
use pop_node.Contract.Ownership.{Request, handle}
use pop_node.Contract.Events.{asks_nothing, announced, reported, handle-announced}
use pop_node.Contract.Sending.{requested, calls_of, after, Handled, handled}
use pop_node.Chain.{Dispatches, Executes}
use pop_node.Chain.Calls.{dispatched, send_call-success}
use pop_node.Chain.Reads.{ask-reads}
use pop_node.Chain.Sessions.{Affords}
use pop_node.Chain.Tokens.{CanRead, CanFollow, CanHandle}
use pop_node.Chain.Tokens.Running.{after-keeps}

-- An event of the pallet, as the contract of its token tells it.
abbrev pub told : Types.Event → Event
told (Types.Event.approval token owner spender value) = Event.approval owner spender value
told (Types.Event.transfer token from to value) = Event.transfer from to value
told (Types.Event.created id creator admin) = Event.created id creator admin

-- The requests whose tokens or allowances are the contract's own: all but `transfer_from`.
abbrev pub of_own : Request → Bool
of_own (Request.transfer_from from to value _) = false
of_own _ = true

pub requested-eq-cons :
    (owns nothing : Bool) (xs : List Call) (x : Call)
    → (if owns && not nothing then xs else []) ≡ x ∷ []
    → (nothing ≡ false) × (xs ≡ x ∷ [])
requested-eq-cons true false xs x p = (refl, p)
requested-eq-cons true true xs x p = cc
requested-eq-cons false nothing xs x p = cc

pub cons_inj : (x y : Call) {xs : List Call} → xs ≡ x ∷ [] → xs ≡ y ∷ [] → x ≡ y
cons_inj x y p q = cc

value_of_allowance :
    {E : Type 0} (r : Result E Balance) {v : Balance}
    → map_ok ReadResult.allowance r ≡ ok (ReadResult.allowance v)
    → unwrap_or r 0 ≡ v
value_of_allowance (ok x) p = ground (arith, p)
value_of_allowance (err x) p = cc

module _ (e : Environment) {Other : Type 0} (h : Host e Other) (ink : Ink)
    (pallet : e.State → State.State h.assets) (f : Dispatches e h pallet)
    (c : Executes e h ink pallet) (contract : AccountId) where
  pub allowance_is :
      (id : TokenId) (o d : AccountId) (t : ink.State)
      → CanRead e h ink pallet f c contract (Read.allowance id o d) t
      → unwrap_or (Fungibles.allowance h.scale ink id o d t).0 0
        ≡ h.assets.allowance (c.ledger t).assets id o d
  unfolding read
  allowance_is id o d t (r, ranged, pays) =
      value_of_allowance (Fungibles.allowance h.scale ink id o d t).0
        (ask-reads e h ink pallet f c (Read.allowance id o d) t r ranged pays).0

  -- The allowance that a request leaves, which its event names.
  abbrev left_by : TokenId → Request → ink.State → Balance
  left_by id (Request.increase_allowance d v) t =
      h.assets.allowance (c.ledger t).assets id contract d
  left_by id (Request.decrease_allowance d v) t =
      h.assets.allowance (c.ledger t).assets id contract d
  left_by id _ t = 0

  -- The chain after the request's one call.
  abbrev chain_after : List Call → ink.State → ink.State
  chain_after [] t = t
  chain_after (x ∷ _) t = (send_call h.scale ink x t).1

  reported_lem :
      (r : Request) (s : State h.scale ink)
      → of_own r ≡ true
      → let t = chain_after (calls_of s.storage.id r) s.outside.chain in
        CanFollow e h ink pallet f c contract s.storage.id r t
        → reported h.scale ink contract r s ≡ left_by s.storage.id r t
  reported_lem (Request.transfer_from from to v _) s own can = absurd (cc own)
  reported_lem (Request.increase_allowance d v) s own can =
      allowance_is s.storage.id contract d _ can
  reported_lem (Request.decrease_allowance d v) s own can =
      allowance_is s.storage.id contract d _ can
  reported_lem (Request.transfer to v _) s own can = refl
  reported_lem (Request.approve d v) s own can = refl
  reported_lem (Request.mint who v) s own can = refl
  reported_lem (Request.burn who v) s own can = refl
  reported_lem (Request.transfer_ownership owner) s own can = refl

  abbrev told_of : List Call → ink.State → List Event
  told_of [] t = []
  told_of (x ∷ _) t = map told (events_of h.assets contract x (c.ledger t).assets)

  announced-told_of :
      (id : TokenId) (r : Request) (t : ink.State)
      → of_own r ≡ true
      → asks_nothing contract r ≡ false
      → announced contract (left_by id r t) r ≡ told_of (calls_of id r) t
  announced-told_of id (Request.transfer_from from to v _) t own n = absurd (cc own)
  announced-told_of id (Request.increase_allowance d v) t own n = refl
  announced-told_of id (Request.decrease_allowance d v) t own n = elim (Bool-cases (v == 0)) [
    | inl z ↦ absurd (ground (arith, n, z))
    | inr z ↦ rw z refl
  ]
  announced-told_of id (Request.transfer to v _) t own n = refl
  announced-told_of id (Request.approve d v) t own n = refl
  announced-told_of id (Request.mint who v) t own n = refl
  announced-told_of id (Request.burn who v) t own n = refl
  announced-told_of id (Request.transfer_ownership owner) t own n = refl

  module _ (caller : AccountId) (r : Request) (x : Call) (s : State h.scale ink)
      (can : CanHandle e h ink pallet f c contract caller r s)
      (q : requested contract caller s.storage r ≡ x ∷ []) where
    abbrev answered : ink.State
    answered = (send_call h.scale ink x s.outside.chain).1

    abbrev made : Result Psp22Error (Unit {0}) × State h.scale ink
    made = handle h.scale ink contract caller r s

    -- A message that succeeds was sent, and leaves the pallet as the library's function does.
    pub made-answered :
        made.0 ≡ ok tt
        → ((send_call h.scale ink x s.outside.chain).0 ≡ ok tt)
          × (c.ledger made.1.outside.chain ≡ c.ledger answered)
    made-answered done = elim (handled h.scale ink contract caller r s) [
      | Handled.quiet q' kept ↦ absurd (cc (q, q'))
      | Handled.refused x' code q' p failed left ↦ absurd (cc (done, failed))
      | Handled.sent x' q' p' _ left' ↦
          let same = cons_inj x' x q' q in
          let p = subst (λ x. (send_call h.scale ink x s.outside.chain).0 ≡ ok tt) same p' in
          (
            p,
            ap c.ledger left'
                ∙ ap
                    (λ x. c.ledger (
                      after h.scale ink contract s.storage.id r
                        (send_call h.scale ink x s.outside.chain).1))
                    same
                ∙ (after-keeps e h ink pallet f c contract s.storage.id r answered
                    (can.read x q p)).0,
          )
    ]

    -- The events of the contract, from the state of the pallet after the call.
    pub made-events :
        of_own r ≡ true
        → made.0 ≡ ok tt
        → made.1.outside.events
          ≡ map told (events_of h.assets contract x (c.ledger answered).assets) ++ s.outside.events
    made-events own done =
        let id = s.storage.id in
        let chain = s.outside.chain in
        let (nothing, about) =
          requested-eq-cons (s.storage.owner == caller) (asks_nothing contract r) (calls_of id r) x
            q in
        let follow =
          subst (λ xs. CanFollow e h ink pallet f c contract id r (chain_after xs chain))
            (sym about) (can.read x q (made-answered done).0) in
        handle-announced h.scale ink contract caller r s nothing (λ i. (done i, made.1))
        ∙ ap (λ events. events ++ s.outside.events)
            (ap (λ v. announced contract v r) (reported_lem r s own follow)
              ∙ announced-told_of id r (chain_after (calls_of id r) chain) own nothing
              ∙ ap (λ xs. told_of xs (chain_after xs chain)) about)

    -- The events of the pallet, which has failed with `DispatchError::Other` where it has none.
    pub made-deposited :
        ApprovalLaws h.assets
        → c.address s.outside.chain ≡ contract
        → let run = dispatched e h ink pallet f c x s.outside.chain in
          let ledger = c.ledger made.1.outside.chain in
          ((failure : ErrorWithPostInfo) → run.0 ≡ err failure → IsDispatchError failure.error)
          → made.0 ≡ ok tt
          → (ledger.events
              ≡ events_of h.assets contract x ledger.assets ++ (c.ledger s.outside.chain).events)
            ⊎ ((failure : ErrorWithPostInfo) × (run.0 ≡ err failure)
                × IsOther failure.error
                × (ledger ≡ c.ledger s.outside.chain))
    unfolding Affords
    made-deposited laws at ranged done =
        let chain = s.outside.chain in
        let run = dispatched e h ink pallet f c x chain in
        let before = (c.ledger chain).events in
        let (p, left) = made-answered done in
        let (in_range, pays, _) = subst (λ xs. Affords e h ink pallet f c xs chain) q can.calls in
        elim (send_call-success e h ink pallet f c x chain in_range pays ranged p) [
          | inr (failure, fails, other, unchanged) ↦ inr (failure, fails, other, left ∙ unchanged)
          | inl (weight, succeeds, state) ↦ inl (
              ap (λ l. l.events) (left ∙ state)
              ∙ dispatch-events h.assets h.weights laws (f.signed (c.address chain))
                  (c.address chain) (f.signed_by (c.address chain)) x (c.ledger chain)
                  (λ i. (succeeds i, run.1))
              ∙ ap (λ who. events_of h.assets who x run.1.assets ++ before) at
              ∙ ap (λ l. events_of h.assets contract x l.assets ++ before) (sym (left ∙ state)))
        ]

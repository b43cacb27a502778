-- ===== src/Examples/Taking.antt =====
-- The contract of token 7 at account 1 takes tokens of account 2 on the live chain
-- (pop-api/examples/fungibles/lib.rs); its owner is account 9.
use mathlib.Core.Path.{subst}
use pop_node.Prelude.{sym, ap, ◌∙◌, ◌≡◌, ◌⊎◌, refl, arith, [], ◌∷◌, some, none, ok, err}
use pop_node.Api.Fungibles.Types
use pop_node.Api.Fungibles.Reads.{read}
use pop_node.Api.Fungibles.Types.{Call, Read, ErrorWithPostInfo}
use pop_node.Api.Fungibles.Calls
use pop_node.Api.Fungibles.Dispatch.{dispatch}
use pop_node.Runtime.Errors.{IsDispatchError, IsOther}
use pop_node.PopApi.Events.{Event}
use pop_node.PopApi.{from_status_code}
use pop_node.PopApi.Requests.{send_call}
use pop_node.Contract.{State}
use pop_node.Contract.Ownership.{Request, handle}
use pop_node.Contract.Sending
use pop_node.Chain.{code_of}
use pop_node.Chain.Calls.{send_call-dispatches}
use pop_node.Chain.Sessions.{Affords}
use pop_node.Chain.Tokens.{CanRead, CanHandle}
use pop_node.Chain.Tokens.Announcing.{cons_inj}
use pop_node.Chain.Tokens.Told.{transfer_from-told}
use pop_node.Examples.Codecs.{codecs}
use pop_node.Examples.Ledger.{ledger, weights, opened, approval_laws, set_allowance, set_balance}
use pop_node.Examples.Live.{live, host, contract, dispatches, executes}
use pop_node.Examples.Chain.{pays, pays_read}

-- Account 2 has 50 of the token and lets the contract take 20.
abbrev allowing : State codecs contract
allowing = record {
  storage = record { id = 7; owner = 9 };
  outside = record {
    chain = record { assets = set_allowance 7 2 1 20 (set_balance 7 2 50 opened); events = [] };
    events = [];
  };
}

abbrev taking : Call
taking = Call.transfer_from 7 2 3 5

taken :
    (send_call codecs contract taking allowing.outside.chain).1
    ≡ (dispatch ledger weights 1 taking allowing.outside.chain).1
unfolding dispatch Calls.transfer_from
taken =
    (send_call-dispatches live host contract (λ s. s.pallet) dispatches executes taking
      allowing.outside.chain (omega arith, omega arith, omega arith, omega arith) (pays taking _)).1

taken_ok : (dispatch ledger weights 1 taking allowing.outside.chain).0 ≡ ok none
unfolding dispatch Calls.transfer_from
taken_ok = refl

left_over :
    ledger.allowance (send_call codecs contract taking allowing.outside.chain).1.assets 7 2 1 ≡ 15
unfolding dispatch Calls.transfer_from
left_over = ap (λ l. ledger.allowance l.assets 7 2 1) taken

readable :
    CanRead live host contract
      (λ s. s.pallet)
      dispatches
      executes
      1
      (Read.allowance 7 2 1)
      (send_call codecs contract taking allowing.outside.chain).1
unfolding read
readable = (
  (omega arith, omega arith, omega arith),
  subst codecs.balance.InRange (sym left_over) (omega arith),
  pays_read (Read.allowance 7 2 1) _ _,
)

abbrev take : Request
take = Request.transfer_from 2 3 5 []

can_take : CanHandle live host contract (λ s. s.pallet) dispatches executes 1 9 take allowing
unfolding Affords
can_take = record {
  calls = ((omega arith, omega arith, omega arith, omega arith), pays taking _, tt);
  read = λ x q p.
      subst
        (λ y.
          CanRead live host contract (λ s. s.pallet) dispatches executes 1 (Read.allowance 7 2 1)
            (send_call codecs contract y allowing.outside.chain).1)
        (cons_inj taking x refl q) readable;
}

taking_ok : (send_call codecs contract taking allowing.outside.chain).0 ≡ ok tt
unfolding from_status_code
taking_ok =
    (send_call-dispatches live host contract (λ s. s.pallet) dispatches executes taking
      allowing.outside.chain (omega arith, omega arith, omega arith, omega arith) (pays taking _)).0
    ∙ ap (λ r. from_status_code (code_of r)) taken_ok

take_ok : (handle codecs contract 1 9 take allowing).0 ≡ ok tt
take_ok = elim (Sending.handled codecs contract 1 9 take allowing) [
  | Sending.Handled.quiet q kept ↦ absurd (cc q)
  | Sending.Handled.sent x q p succeeded left ↦ succeeded
  | Sending.Handled.refused x code q p failed left ↦ absurd (cc (q, p, taking_ok))
]

no_taking_failure :
    (failure : ErrorWithPostInfo)
    → (dispatch ledger weights 1 taking allowing.outside.chain).0 ≡ err failure
    → IsDispatchError failure.error
no_taking_failure failure p = absurd (cc (p, taken_ok))

transfer_from-told_example :
    let chain = (handle codecs contract 1 9 take allowing).1.outside.chain in
    let run = dispatch ledger weights 1 taking allowing.outside.chain in
    ((chain.events ≡ Types.Event.transfer 7 (some 2) (some 3) 5 ∷ [])
      × ((handle codecs contract 1 9 take allowing).1.outside.events
          ≡ Event.approval 2 1 (ledger.allowance chain.assets 7 2 1)
            ∷ Event.transfer (some 1) (some 3) 5
            ∷ []))
    ⊎ ((failure : ErrorWithPostInfo) × (run.0 ≡ err failure)
        × IsOther failure.error
        × (chain ≡ allowing.outside.chain))
transfer_from-told_example =
    transfer_from-told live host contract (λ s. s.pallet) dispatches executes 1 9 2 3 5 [] allowing
      approval_laws refl can_take refl no_taking_failure take_ok

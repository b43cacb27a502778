-- ===== src/Examples/Creating.antt =====
-- The contract of token 7 is made at account 1 by account 9 on the live chain
-- (pop-api/examples/fungibles/lib.rs).
use pop_node.Prelude.{ap, ◌∙◌, ◌≡◌, ◌⊎◌, refl, arith, [], ◌∷◌, Option, Result, none, ok, err}
use pop_node.Frame.{Weight}
use pop_node.Primitives.{to_u32}
use pop_node.Api.Fungibles.Types.{Call, ErrorWithPostInfo}
use pop_node.Api.Fungibles.Running.{run}
use pop_node.Api.Fungibles.Calls
use pop_node.Api.Fungibles.Dispatch.{dispatch}
use pop_node.Runtime.Errors.{IsDispatchError, IsOther}
use pop_node.Runtime.Versioning.{v0_error}
use pop_node.PopApi.{from_status_code}
use pop_node.PopApi.Events.{Event}
use pop_node.PopApi.Errors.{psp22_error, Psp22Error}
use pop_node.PopApi.Requests.{send_call}
use pop_node.Contract.{State, Fungible, Outside, new}
use pop_node.Chain.{code_of}
use pop_node.Chain.Calls.{send_call-dispatches}
use pop_node.Chain.Sessions.{calls_of}
use pop_node.Chain.Tokens.{life, called}
use pop_node.Chain.Tokens.Creating.{new-eq-ok, new-outcome, new-run}
use pop_node.Examples.Codecs.{codecs}
use pop_node.Examples.Ledger.{ledger, weights}
use pop_node.Examples.Live.{live, host, contract, dispatches, executes}
use pop_node.Examples.Chain.{pays}
use pop_node.Examples.Tokens.{begun, messages, lives}

abbrev creating : Call
creating = Call.create 7 1 1

abbrev made : Result Psp22Error Fungible × Outside codecs contract
made = new codecs contract 9 1 7 1 begun.outside

created_ok : (dispatch ledger weights 1 creating begun.outside.chain).0 ≡ ok none
unfolding dispatch Calls.create
created_ok = refl

sent_ok : (send_call codecs contract creating begun.outside.chain).0 ≡ ok tt
unfolding from_status_code
sent_ok =
    (send_call-dispatches live host contract (λ s. s.pallet) dispatches executes creating
      begun.outside.chain (omega arith, omega arith, omega arith) (pays creating _)).0
    ∙ ap (λ r. from_status_code (code_of r)) created_ok

made_ok : made.0 ≡ ok (record { id = 7; owner = 9 })
made_ok = ap (λ r. r.0) (new-eq-ok codecs contract 9 1 7 1 begun.outside sent_ok)

no_failure :
    (failure : ErrorWithPostInfo)
    → (dispatch ledger weights 1 creating begun.outside.chain).0 ≡ err failure
    → IsDispatchError failure.error
no_failure failure p = absurd (cc (p, created_ok))

abbrev starts : State codecs contract
starts = record { storage = record { id = 7; owner = 9 }; outside = made.1 }

new-outcome_example :
    let created = dispatch ledger weights 1 creating begun.outside.chain in
    ((made.0 ≡ ok (record { id = 7; owner = 9 }))
      × (made.1.events ≡ Event.created 7 1 1 ∷ [])
      × (((weight : Option Weight) × (created.0 ≡ ok weight) × (made.1.chain ≡ created.1))
          ⊎ ((failure : ErrorWithPostInfo) × (created.0 ≡ err failure)
              × IsOther failure.error
              × (made.1.chain ≡ begun.outside.chain))))
    ⊎ ((failure : ErrorWithPostInfo) × (created.0 ≡ err failure)
        × (made.0 ≡ err (psp22_error (to_u32 (v0_error failure.error))))
        × (made.1.events ≡ [])
        × (made.1.chain ≡ begun.outside.chain))
new-outcome_example =
    new-outcome live host contract (λ s. s.pallet) dispatches executes 9 1 7 1 begun.outside
      (omega arith, omega arith, omega arith) (pays creating _) no_failure

new-run_example :
    (starts.storage ≡ record { id = 7; owner = 9 })
    × ((life live host contract (λ s. s.pallet) dispatches executes 1 messages starts).outside.chain
        ≡ run ledger weights
            (calls_of live host contract
              (λ s. s.pallet)
              dispatches
              executes
              1
              (creating
                ∷ called live host contract (λ s. s.pallet) dispatches executes 1 messages starts))
            begun.outside.chain)
new-run_example =
    new-run live host contract (λ s. s.pallet) dispatches executes 9 1 7 1 begun.outside messages
      refl (omega arith, omega arith, omega arith) (pays creating _) made_ok
      (lives messages starts (omega arith) (omega arith))

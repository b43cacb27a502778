-- ===== src/Examples/Chain.antt =====
-- The contract of account 1 on the live chain (pop-api/src/v0/fungibles/mod.rs): it has approved account
-- 2 for 30 of token 7.
use pop_node.Prelude.{
  true, false, committed, ℕ, ◌≡◌, ◌⊎◌, refl, arith, List, [], ◌∷◌, ok, err, Option, some, none, ap,
  ◌∙◌,
}
use pop_node.Api.Fungibles.Types.{Event, Call, Read, ReadResult, ErrorWithPostInfo}
use pop_node.Api.Fungibles.Reads.{read}
use pop_node.Api.Fungibles.State.{State}
use pop_node.Api.Fungibles.Dispatch.{dispatch}
use pop_node.Api.Fungibles.Calls.{
  create, decrease_allowance, decrease_by, lower_allowance, approve_less, approve_anew,
}
use pop_node.Primitives
use pop_node.Primitives.{to_u32, resize4}
use pop_node.Frame.{Weight}
use pop_node.Runtime.Versioning.{v0_error}
use pop_node.Runtime.Errors.{IsDispatchError, IsOther}
use pop_node.PopApi.{from_status_code, into_error}
use pop_node.Examples.Machine.{weight}
use pop_node.PopApi.Requests.{send_call}
use pop_node.PopApi.Queries.{ask}
use pop_node.PopApi.Fungibles
use pop_node.Chain.{Pays, PaysRead, code_of}
use pop_node.Chain.Calls.{send_call-dispatches, send_call-failure, send_call-success}
use pop_node.Chain.Creators.{forward-created}
use pop_node.Contract.Tester.{Outside, forward}
use pop_node.PopApi.Events
use pop_node.Chain.Approvals.{send_approve-outcome}
use pop_node.Chain.Reads.{ask-reads, approve_then_allowance}
use pop_node.Examples.Codecs.{codecs}
use pop_node.Examples.Ledger.{ledger, weights, opened, approval_laws}
use pop_node.Examples.Live.{Live, live, host, contract, dispatches, executes}

abbrev start : State ledger
start = record { assets = opened; events = [] }

pub pays : (x : Call) (s : Live) → Pays live host x s
pays x s = record { overhead = (tt, refl); input = (tt, refl); call = (tt, refl) }

pub pays_read : (x : Read) (bytes : List ℕ) (s : Live) → PaysRead live host x bytes s
pays_read x bytes s = record {
  overhead = (tt, refl);
  input = (tt, refl);
  read = (tt, refl);
  output = ((tt, refl), refl);
}

send_approve-outcome_example :
    let (result, s') = Fungibles.approve codecs contract 7 2 10 start in
    ((true ≡ true)
      × (result ≡ ok tt)
      × (ledger.allowance s'.assets 7 1 2 ≡ 10)
      × (s'.events ≡ Event.approval 7 1 2 10 ∷ []))
    ⊎ ((true ≡ false)
        × (failure : ErrorWithPostInfo) × ((dispatch ledger weights 1 (Call.approve 7 2 10) start).0
            ≡ err failure)
        × (result ≡ from_status_code (to_u32 (v0_error failure.error)))
        × (s' ≡ start))
send_approve-outcome_example =
    send_approve-outcome live host contract (λ s. s.pallet) dispatches executes 7 2 10 start
      approval_laws (omega arith, omega arith, omega arith) (pays (Call.approve 7 2 10) _)

approve_then_allowance_example :
    (ask codecs contract
      (Read.allowance 7 1 2)
      (Fungibles.approve codecs contract 7 2 10 start).1).0
    ≡ ok (ReadResult.allowance 10)
approve_then_allowance_example =
    approve_then_allowance live host contract (λ s. s.pallet) dispatches executes 7 2 10 start
      approval_laws (omega arith, omega arith, omega arith) (omega arith, omega arith, omega arith)
      (pays (Call.approve 7 2 10) _) (omega arith) (pays_read (Read.allowance 7 1 2) _ _)

send_call-dispatches_example :
    let r = dispatch ledger weights 1 (Call.burn 7 1 40) start in
    ((send_call codecs contract (Call.burn 7 1 40) start).0 ≡ from_status_code (code_of r.0))
    × ((send_call codecs contract (Call.burn 7 1 40) start).1 ≡ committed r start)
send_call-dispatches_example =
    send_call-dispatches live host contract (λ s. s.pallet) dispatches executes (Call.burn 7 1 40)
      start (omega arith, omega arith, omega arith) (pays (Call.burn 7 1 40) _)

ask-reads_example :
    ((ask codecs contract (Read.balance_of 7 1) start).0 ≡ ok (ReadResult.balance_of 100))
    × ((ask codecs contract (Read.balance_of 7 1) start).1 ≡ start)
unfolding read
ask-reads_example =
    ask-reads live host contract (λ s. s.pallet) dispatches executes (Read.balance_of 7 1) start
      (omega arith, omega arith) (omega arith) (pays_read (Read.balance_of 7 1) _ _)

-- The contract lowers the allowance by more than there is: `CannotLookup` in the ledger.
abbrev unapproved : ErrorWithPostInfo
unapproved = record { actual_weight = none; error = ledger.unapproved }

too_much :
    dispatch ledger weights 1 (Call.decrease_allowance 7 2 50) start ≡ (err unapproved, start)
unfolding dispatch decrease_allowance decrease_by
too_much = refl

fails : (send_call codecs contract (Call.decrease_allowance 7 2 50) start).0 ≡ err 1
unfolding from_status_code to_u32 Primitives.encode v0_error resize4
fails =
    (send_call-dispatches live host contract (λ s. s.pallet) dispatches executes
      (Call.decrease_allowance 7 2 50) start (omega arith, omega arith, omega arith)
      (pays (Call.decrease_allowance 7 2 50) _)).0
    ∙ ap (λ r. from_status_code (code_of r.0)) too_much

send_call-failure_example :
    (failure : ErrorWithPostInfo) × ((dispatch ledger weights 1
        (Call.decrease_allowance 7 2 50)
        start).0
      ≡ err failure)
    × ((send_call codecs contract (Call.decrease_allowance 7 2 50) start).1 ≡ start)
    × (IsDispatchError failure.error → into_error 1 ≡ v0_error failure.error)
send_call-failure_example =
    send_call-failure live host contract (λ s. s.pallet) dispatches executes
      (Call.decrease_allowance 7 2 50) start (omega arith, omega arith, omega arith)
      (pays (Call.decrease_allowance 7 2 50) _) fails

lowered_ok :
    (dispatch ledger weights 1 (Call.decrease_allowance 7 2 10) start).0 ≡ ok (some (weight 2))
unfolding dispatch decrease_allowance decrease_by lower_allowance approve_less approve_anew
lowered_ok = refl

succeeds : (send_call codecs contract (Call.decrease_allowance 7 2 10) start).0 ≡ ok tt
unfolding from_status_code
succeeds =
    (send_call-dispatches live host contract (λ s. s.pallet) dispatches executes
      (Call.decrease_allowance 7 2 10) start (omega arith, omega arith, omega arith)
      (pays (Call.decrease_allowance 7 2 10) _)).0
    ∙ ap (λ r. from_status_code (code_of r)) lowered_ok

no_failure :
    (failure : ErrorWithPostInfo)
    → (dispatch ledger weights 1 (Call.decrease_allowance 7 2 10) start).0 ≡ err failure
    → IsDispatchError failure.error
no_failure failure p = absurd (cc (p, lowered_ok))

send_call-success_example :
    let r = dispatch ledger weights 1 (Call.decrease_allowance 7 2 10) start in
    let s' = (send_call codecs contract (Call.decrease_allowance 7 2 10) start).1 in
    ((weight : Option Weight) × (r.0 ≡ ok weight) × (s' ≡ r.1))
    ⊎ ((failure : ErrorWithPostInfo) × (r.0 ≡ err failure) × IsOther failure.error × (s' ≡ start))
send_call-success_example =
    send_call-success live host contract (λ s. s.pallet) dispatches executes
      (Call.decrease_allowance 7 2 10) start (omega arith, omega arith, omega arith)
      (pays (Call.decrease_allowance 7 2 10) _) no_failure succeeds

-- The contract of account 1 creates token 8 for the admin 5.
abbrev fresh : Outside codecs contract
fresh = record { chain = start; events = [] }

abbrev creation : Call
creation = Call.create 8 5 1

created_ok : (dispatch ledger weights 1 creation start).0 ≡ ok none
unfolding dispatch create
created_ok = refl

no_failed_creation :
    (failure : ErrorWithPostInfo)
    → (dispatch ledger weights 1 creation start).0 ≡ err failure
    → IsDispatchError failure.error
no_failed_creation failure p = absurd (cc (p, created_ok))

creation_sent : (send_call codecs contract creation start).0 ≡ ok tt
unfolding from_status_code
creation_sent =
    (send_call-dispatches live host contract (λ s. s.pallet) dispatches executes creation start
      (omega arith, omega arith, omega arith) (pays creation _)).0
    ∙ ap (λ r. from_status_code (code_of r)) created_ok

forwarded_ok : (forward codecs contract 1 creation fresh).0 ≡ ok tt
unfolding forward
forwarded_ok = rw creation_sent refl

forward-created_example :
    let s' = (forward codecs contract 1 creation fresh).1 in
    (s'.events ≡ Events.Event.created 8 5 5 ∷ [])
    × ((s'.chain.events ≡ Event.created 8 1 5 ∷ [])
        ⊎ ((failure : ErrorWithPostInfo) × ((dispatch ledger weights 1 creation start).0
              ≡ err failure)
            × IsOther failure.error
            × (s'.chain ≡ start)))
forward-created_example =
    forward-created live host contract (λ s. s.pallet) dispatches executes 8 5 1 fresh
      (omega arith, omega arith, omega arith) (pays creation _) no_failed_creation forwarded_ok

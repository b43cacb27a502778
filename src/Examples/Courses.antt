-- ===== src/Examples/Courses.antt =====
-- The contract of token 7 at account 1, whose owner is account 9, among others on the live chain
-- (pop-api/examples/fungibles/lib.rs).
use mathlib.Core.Path.{subst}
use pop_node.Prelude.{sym, ◌≡◌, refl, arith, List, [], ◌∷◌, ok, ◌≤◌}
use pop_node.Frame.{AccountId, TokenId, Balance}
use pop_node.Api.Fungibles.Calls
use pop_node.Api.Fungibles.Dispatch.{dispatch}
use pop_node.Api.Fungibles.Types.{Read, ReadResult, Call}
use pop_node.Api.Fungibles.Reads.{read}
use pop_node.Api.Fungibles.State
use pop_node.Api.Fungibles.Running.{run}
use pop_node.Api.Fungibles.Balances.{replayed}
use pop_node.Api.Fungibles.Supply.{Accounted}
use pop_node.Api.Fungibles.Custody.{RaisesNone, AllowanceLaws, Unapproved, Stranger, held}
use pop_node.Api.Fungibles.Custody.Keeping.{run-Unapproved}
use pop_node.Contract.Ownership
use pop_node.Contract.Messages
use pop_node.Contract.Queries.{Query, consult, as_returned}
use pop_node.Contract.{State}
use pop_node.Contract.Ownership.{Request}
use pop_node.Chain.Tokens.{CanRead, next}
use pop_node.Chain.Tokens.Reading.{consult-reads, consult-Course}
use pop_node.Chain.Tokens.Interleaving.{Course, Course-Booked}
use pop_node.Chain.Tokens.Unattended.{Unattended, Unattended-held}
use pop_node.Examples.Chain.{pays_read}
use pop_node.Examples.Codecs.{codecs}
use pop_node.Examples.Ledger.{Ledger, ledger, weights, opened, approval_laws, set_allowance}
use pop_node.Examples.Live.{live, host, contract, dispatches, executes}
use pop_node.Examples.Balances.{balance_laws, Any}
use pop_node.Examples.Supply.{supply_laws}
use pop_node.Examples.Tokens.{can}

covered :
    (o : AccountId) (t : TokenId) (from to : AccountId) (v : Balance) (s : Ledger)
    → (ledger.transfer_approved o t from to v s).0 ≡ ok tt
    → v ≤ ledger.allowance s t from o
covered o t from to v s p = ground arith

transfer-RaisesNone :
    (o : AccountId) (t : TokenId) (to : AccountId) (v : Balance)
    → RaisesNone ledger (ledger.transfer_keep_alive o t to v)
unfolding RaisesNone
transfer-RaisesNone o t to v s p t' owner d = ground arith

transfer_approved-RaisesNone :
    (o : AccountId) (t : TokenId) (from to : AccountId) (v : Balance)
    → RaisesNone ledger (ledger.transfer_approved o t from to v)
unfolding RaisesNone
transfer_approved-RaisesNone o t from to v s p t' owner d = ground arith

burn-RaisesNone :
    (o : AccountId) (t : TokenId) (who : AccountId) (v : Balance)
    → RaisesNone ledger (ledger.burn o t who v)
unfolding RaisesNone
burn-RaisesNone o t who v s p t' owner d = ground arith

abbrev allowance_laws : AllowanceLaws ledger
unfolding RaisesNone
allowance_laws = record {
  approve_signed = λ o t d v s p. (o, refl);
  cancel_signed = λ o t d s p. (o, refl);
  transfer_approved_covered = λ o t from to v s p. (o, refl, covered o t from to v s p);
  transfer_raises = transfer-RaisesNone;
  transfer_approved_raises = transfer_approved-RaisesNone;
  create_raises = λ o t admin m s p t' owner d. omega arith;
  start_destroy_raises = λ o t s p t' owner d. omega arith;
  set_metadata_raises = λ o t name symbol n s p t' owner d. omega arith;
  clear_metadata_raises = λ o t s p t' owner d. omega arith;
  mint_raises = λ o t who v s p t' owner d. omega arith;
  burn_raises = burn-RaisesNone;
}

-- The contract has 100 of the token, and has let nobody take any.
abbrev closed : State codecs contract
closed = record {
  storage = record { id = 7; owner = 9 };
  outside = record {
    chain = record { assets = set_allowance 7 1 2 0 opened; events = [] };
    events = [];
  };
}

-- Account 4 asks the contract for a transfer.
abbrev asked : State codecs contract
asked =
    next live host contract (λ s. s.pallet) dispatches executes 1 4 (Request.transfer 3 5 []) closed

-- Account 5 mints for the contract, tries to take from it, and gives some of its own.
abbrev theirs : List (AccountId × Call)
theirs =
    (5, Call.mint 7 1 20)
    ∷ (5, Call.transfer_from 7 1 5 10)
    ∷ (5, Call.mint 7 5 8)
    ∷ (5, Call.transfer 7 1 3)
    ∷ []

abbrev then_chain : State.State ledger
then_chain = run ledger weights theirs asked.outside.chain

abbrev ended : State codecs contract
ended = record asked { outside = record asked.outside { chain = then_chain } }

abbrev course : Course live host contract (λ s. s.pallet) dispatches executes 1 theirs closed ended
course =
    Course.message 4 (Request.transfer 3 5 [])
      (can 4 (Request.transfer 3 5 []) closed (omega arith) (omega arith, omega arith))
      (Course.others theirs then_chain refl refl Course.begins)

stranger : Stranger ledger 1 5
stranger who p q = ground arith

unattended : Unattended live host contract (λ s. s.pallet) dispatches executes 1 course
unfolding Unattended
unattended = ((λ p. omega (arith, p)), ((stranger, (stranger, (stranger, (stranger, tt)))), tt))

Unattended-held_example :
    Unapproved ledger 7 1 then_chain
    × (held ledger 7 1 closed.outside.chain ≤ held ledger 7 1 then_chain)
unfolding Any balance_laws
Unattended-held_example =
    Unattended-held live host contract (λ s. s.pallet) dispatches executes 1 7 balance_laws
      approval_laws allowance_laws course unattended refl tt (λ d. ground arith)

Course-Booked_example :
    (then_chain ≡ run ledger weights theirs closed.outside.chain)
    × (ledger.balance then_chain.assets 7 5
        ≡ replayed 7 then_chain.events (ledger.balance closed.outside.chain.assets 7) 5)
    × Accounted ledger 7 closed.outside.chain then_chain
unfolding Any balance_laws
Course-Booked_example =
    Course-Booked live host contract (λ s. s.pallet) dispatches executes 1 7 balance_laws 5 course
      refl supply_laws tt refl

run-Unapproved_example :
    Unapproved ledger 7 1 (run ledger weights theirs closed.outside.chain)
    × (held ledger 7 1 closed.outside.chain
        ≤ held ledger 7 1 (run ledger weights theirs closed.outside.chain))
unfolding Any balance_laws
run-Unapproved_example =
    run-Unapproved ledger 7 balance_laws 1 approval_laws allowance_laws weights theirs
      closed.outside.chain (stranger, (stranger, (stranger, (stranger, tt)))) tt (λ d. ground arith)

-- Account 5 has 5 left.
left_over : ledger.balance then_chain.assets 7 5 ≡ 5
unfolding run dispatch Calls.mint Calls.transfer Calls.transfer_from Ownership.handle
    Messages.transfer
left_over = refl

readable :
    CanRead live host contract
      (λ s. s.pallet)
      dispatches
      executes
      1
      (Read.balance_of 7 5)
      then_chain
unfolding read
readable = (
  (omega arith, omega arith),
  subst codecs.balance.InRange (sym left_over) (omega arith),
  pays_read (Read.balance_of 7 5) _ _,
)

consult-reads_example :
    ((consult codecs contract (Query.balance_of 5) ended).0
      ≡ ok (as_returned (read ledger (Read.balance_of 7 5) then_chain.assets)))
    × ((consult codecs contract (Query.balance_of 5) ended).1.storage ≡ ended.storage)
    × ((consult codecs contract (Query.balance_of 5) ended).1.outside.events ≡ ended.outside.events)
    × ((consult codecs contract (Query.balance_of 5) ended).1.outside.chain ≡ then_chain)
unfolding Ownership.handle Messages.transfer
consult-reads_example =
    consult-reads live host contract (λ s. s.pallet) dispatches executes 1 (Query.balance_of 5)
      ended readable

consult-Course_example :
    (consult codecs contract (Query.balance_of 5) ended).0
    ≡ ok (
        ReadResult.balance_of
          (replayed 7 then_chain.events (ledger.balance closed.outside.chain.assets 7) 5))
unfolding Any balance_laws Ownership.handle Messages.transfer
consult-Course_example =
    consult-Course live host contract (λ s. s.pallet) dispatches executes 1 5 balance_laws course
      refl supply_laws tt refl readable

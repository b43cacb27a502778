-- ===== src/Examples/Tokens.antt =====
-- The contract of token 7 at account 1 on the live chain (pop-api/examples/fungibles/lib.rs), whose
-- owner is account 9.
use mathlib.Core.Path.{subst}
use pop_node.Prelude.{
  sym, ap, ◌∙◌, Bool, true, false, ◌==◌, ◌&&◌, not, if◌then◌else◌, ◌≡◌, ◌⊎◌, refl, arith, List, [],
  ◌∷◌, ◌++◌, map, none, ok, err,
}
use pop_node.Frame.{AccountId, TokenId}
use pop_node.Api.Fungibles.Types.{Call, ErrorWithPostInfo}
use pop_node.Api.Fungibles.State
use pop_node.Api.Fungibles.Events.{events_of}
use pop_node.Api.Fungibles.Calls
use pop_node.Api.Fungibles.Dispatch.{dispatch}
use pop_node.Runtime.Errors.{IsDispatchError, IsOther}
use pop_node.PopApi.{from_status_code}
use pop_node.PopApi.Requests.{send_call}
use pop_node.Contract.{State}
use pop_node.Contract.Ownership.{Request, handle}
use pop_node.Contract.Events.{asks_nothing}
use pop_node.Contract.Sending
use pop_node.Chain.{code_of}
use pop_node.Chain.Calls.{send_call-dispatches}
use pop_node.Chain.Sessions.{Affords}
use pop_node.Chain.Tokens.{CanHandle, CanFollow, CanLive, next}
use pop_node.Chain.Tokens.Running.{next-id}
use pop_node.Chain.Tokens.Announcing.{told}
use pop_node.Chain.Tokens.Told.{message-told}
use pop_node.Examples.Codecs.{codecs}
use pop_node.Examples.Ledger.{ledger, weights, opened, approval_laws}
use pop_node.Examples.Live.{live, host, contract, dispatches, executes}
use pop_node.Examples.Chain.{pays}

abbrev pub begun : State codecs contract
begun = record {
  storage = record { id = 7; owner = 9 };
  outside = record { chain = record { assets = opened; events = [] }; events = [] };
}

-- Requests without a read, whose arguments are within their types.
abbrev pub Fits : Request → Type 0
Fits (Request.transfer to v _) = codecs.account.InRange to × codecs.balance.InRange v
Fits (Request.approve d v) = codecs.account.InRange d × codecs.balance.InRange v
Fits (Request.mint who v) = codecs.account.InRange who × codecs.balance.InRange v
Fits (Request.burn who v) = codecs.account.InRange who × codecs.balance.InRange v
Fits (Request.transfer_ownership owner) = Unit {0}
Fits _ = ⊥

abbrev pub AffordsAll : List Call → State.State ledger → Type 0
AffordsAll = Affords live host contract (λ s. s.pallet) dispatches executes

affords_if :
    (b : Bool) (xs : List Call) (t : State.State ledger)
    → AffordsAll xs t
    → AffordsAll (if b then xs else []) t
unfolding Affords
affords_if true xs t can = can
affords_if false xs t can = tt

affords_calls :
    (id : TokenId) (r : Request) (t : State.State ledger)
    → codecs.token.InRange id
    → Fits r
    → AffordsAll (Sending.calls_of id r) t
unfolding Affords
affords_calls id (Request.transfer to v d) t i (k, l) =
    ((i, k, l), pays (Call.transfer id to v) _, tt)
affords_calls id (Request.approve d v) t i (k, l) = ((i, k, l), pays (Call.approve id d v) _, tt)
affords_calls id (Request.mint who v) t i (k, l) = ((i, k, l), pays (Call.mint id who v) _, tt)
affords_calls id (Request.burn who v) t i (k, l) = ((i, k, l), pays (Call.burn id who v) _, tt)
affords_calls id (Request.transfer_ownership owner) t i fits = tt
affords_calls id (Request.transfer_from from to v d) t i fits = absurd fits
affords_calls id (Request.increase_allowance d v) t i fits = absurd fits
affords_calls id (Request.decrease_allowance d v) t i fits = absurd fits

follows :
    (id : TokenId) (r : Request) (t : State.State ledger)
    → Fits r
    → CanFollow live host contract (λ s. s.pallet) dispatches executes 1 id r t
follows id (Request.transfer to v d) t fits = tt
follows id (Request.approve d v) t fits = tt
follows id (Request.mint who v) t fits = tt
follows id (Request.burn who v) t fits = tt
follows id (Request.transfer_ownership owner) t fits = tt
follows id (Request.transfer_from from to v d) t fits = absurd fits
follows id (Request.increase_allowance d v) t fits = absurd fits
follows id (Request.decrease_allowance d v) t fits = absurd fits

pub can :
    (caller : AccountId) (r : Request) (s : State codecs contract)
    → codecs.token.InRange s.storage.id
    → Fits r
    → CanHandle live host contract (λ s. s.pallet) dispatches executes 1 caller r s
can caller r s i fits = record {
  calls =
      affords_if (s.storage.owner == caller && not (asks_nothing 1 r))
        (Sending.calls_of s.storage.id r) s.outside.chain
        (affords_calls s.storage.id r s.outside.chain i fits);
  read = λ x q p. follows s.storage.id r _ fits;
}

abbrev pub AllFit : List (AccountId × Request) → Type 0
AllFit [] = Unit {0}
AllFit ((caller, r) ∷ messages) = Fits r × AllFit messages

-- Every message without a read can be handled, on a token whose id is within its type.
pub lives :
    (messages : List (AccountId × Request)) (s : State codecs contract)
    → codecs.token.InRange s.storage.id
    → AllFit messages
    → CanLive live host contract (λ s. s.pallet) dispatches executes 1 messages s
unfolding CanLive
lives [] s i fits = tt
lives ((caller, r) ∷ messages) s i (fit, fits) = (
  can caller r s i fit,
  lives messages (next live host contract (λ s. s.pallet) dispatches executes 1 caller r s)
      (subst codecs.token.InRange
        (sym (next-id live host contract (λ s. s.pallet) dispatches executes 1 caller r s)) i)
      fits,
)

-- The owner mints, someone else asks for a transfer, the owner hands over to account 8 and asks once
-- more, and account 8 burns.
abbrev pub messages : List (AccountId × Request)
messages =
    (9, Request.mint 2 30)
    ∷ (4, Request.transfer 3 5 [])
    ∷ (9, Request.transfer_ownership 8)
    ∷ (9, Request.mint 2 1)
    ∷ (8, Request.burn 1 10)
    ∷ []

minted_ok : (dispatch ledger weights 1 (Call.mint 7 2 30) begun.outside.chain).0 ≡ ok none
unfolding dispatch Calls.mint
minted_ok = refl

sent_ok : (send_call codecs contract (Call.mint 7 2 30) begun.outside.chain).0 ≡ ok tt
unfolding from_status_code
sent_ok =
    (send_call-dispatches live host contract (λ s. s.pallet) dispatches executes (Call.mint 7 2 30)
      begun.outside.chain (omega arith, omega arith, omega arith) (pays (Call.mint 7 2 30) _)).0
    ∙ ap (λ r. from_status_code (code_of r)) minted_ok

done : (handle codecs contract 1 9 (Request.mint 2 30) begun).0 ≡ ok tt
done = elim (Sending.handled codecs contract 1 9 (Request.mint 2 30) begun) [
  | Sending.Handled.quiet q kept ↦ absurd (cc q)
  | Sending.Handled.sent x q p succeeded left ↦ succeeded
  | Sending.Handled.refused x code q p failed left ↦ absurd (cc (q, p, sent_ok))
]

no_failure :
    (failure : ErrorWithPostInfo)
    → (dispatch ledger weights 1 (Call.mint 7 2 30) begun.outside.chain).0 ≡ err failure
    → IsDispatchError failure.error
no_failure failure p = absurd (cc (p, minted_ok))

message-told_example :
    let result = handle codecs contract 1 9 (Request.mint 2 30) begun in
    let pallet = result.1.outside.chain in
    let events = events_of ledger 1 (Call.mint 7 2 30) pallet.assets in
    ((pallet.events ≡ events ++ []) × (result.1.outside.events ≡ map told events ++ []))
    ⊎ ((failure : ErrorWithPostInfo) × ((dispatch ledger weights 1
            (Call.mint 7 2 30)
            begun.outside.chain).0
          ≡ err failure)
        × IsOther failure.error
        × (pallet ≡ begun.outside.chain))
message-told_example =
    message-told live host contract (λ s. s.pallet) dispatches executes 1 9 (Request.mint 2 30)
      (Call.mint 7 2 30) begun approval_laws refl
      (can 9 (Request.mint 2 30) begun (omega arith) (omega arith, omega arith)) refl refl
      no_failure done

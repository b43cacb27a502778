-- ===== src/Chain/Tokens/Interleaving.antt =====
-- The contract of one token among others: its messages (pop-api/examples/fungibles/lib.rs) in between
-- the calls that other accounts and contracts make at the fungibles pallet
-- (pallets/api/src/fungibles/mod.rs).
use mathlib.Core.Path.{subst⁻¹}
use pop_node.Prelude.{◌≡◌, refl, sym, ap, ◌∙◌, List, [], ◌++◌}
use pop_node.Frame.{AccountId, TokenId}
use pop_node.Extension.Environment.{Environment}
use pop_node.Api.Fungibles.Types.{Call}
use pop_node.Api.Fungibles.State
use pop_node.Api.Fungibles.Running.{run, run-append}
use pop_node.Api.Fungibles.Balances.{replayed, BalanceLaws}
use pop_node.Api.Fungibles.Supply.{SupplyLaws, Accounted}
use pop_node.Api.Fungibles.Books.{Booked, run-Booked}
use pop_node.Runtime.Config.{Host}
use pop_node.PopApi.Ink.{Ink}
use pop_node.Contract.{State}
use pop_node.Contract.Ownership.{Request}
use pop_node.Contract.Sending.{requested}
use pop_node.Chain.{Dispatches, Executes}
use pop_node.Chain.Sessions.{calls_of}
use pop_node.Chain.Tokens.{CanHandle, next}
use pop_node.Chain.Tokens.Running.{next-run}

module _ (e : Environment) {Other : Type 0} (h : Host e Other) (ink : Ink)
    (pallet : e.State → State.State h.assets) (f : Dispatches e h pallet)
    (c : Executes e h ink pallet) (contract : AccountId) where
  -- The chain as it is after others have made these calls at the pallet, which the contract learns of
  -- when it looks.
  abbrev pub moved : ink.State → State h.scale ink → State h.scale ink
  moved chain s = record s { outside = record s.outside { chain = chain } }

  -- What happens to the contract and the chain, with all calls that are made at the pallet: a message
  -- is sent to the contract, which may fail, or others make calls.
  pub data Course
      : List (h.assets.Origin × Call) → State h.scale ink → State h.scale ink → Type 0 where
    begins : {s : State h.scale ink} → Course [] s s
    message :
        {calls : List (h.assets.Origin × Call)} {s u : State h.scale ink} (caller : AccountId)
        (r : Request)
        → CanHandle e h ink pallet f c contract caller r s
        → Course calls (next e h ink pallet f c contract caller r s) u
        → Course
            (calls_of e h ink pallet f c contract (requested contract caller s.storage r) ++ calls)
            s
            u
    others :
        {calls : List (h.assets.Origin × Call)} {s u : State h.scale ink}
        (theirs : List (h.assets.Origin × Call)) (chain : ink.State)
        → c.ledger chain ≡ run h.assets h.weights theirs (c.ledger s.outside.chain)
        → c.address chain ≡ c.address s.outside.chain
        → Course calls (moved chain s) u
        → Course (theirs ++ calls) s u

  pub Course-run :
      {calls : List (h.assets.Origin × Call)} {s u : State h.scale ink}
      → Course calls s u
      → c.address s.outside.chain ≡ contract
      → c.ledger u.outside.chain ≡ run h.assets h.weights calls (c.ledger s.outside.chain)
  unfolding run
  Course-run begins at = refl
  Course-run (message {calls = calls} {s = s} caller r can rest) at =
      let own = calls_of e h ink pallet f c contract (requested contract caller s.storage r) in
      let (ran, address) = next-run e h ink pallet f c contract caller r s can at in
      Course-run rest address
      ∙ ap (run h.assets h.weights calls) ran
      ∙ sym (run-append h.assets h.weights own calls (c.ledger s.outside.chain))
  Course-run (others {calls = calls} {s = s} theirs chain ran address rest) at =
      Course-run rest (address ∙ at)
      ∙ ap (run h.assets h.weights calls) ran
      ∙ sym (run-append h.assets h.weights theirs calls (c.ledger s.outside.chain))

  -- Given the documented behaviour of pallet-contracts, FRAME and pallet-assets, where a token exists
  -- with a minimum balance of 1 and no event was deposited before: however messages to a contract of
  -- one token, the failing ones included, alternate with what others do at the pallet, the pallet ends
  -- in the state that its functions lead to, called in that order; so every account's balance of the
  -- token is what the events make of the balances before them, and the supply with what they say was
  -- burned comes to no more than the supply before with what they say was minted.
  pub Course-Booked :
      {calls : List (h.assets.Origin × Call)} {s u : State h.scale ink} (t : TokenId)
      (laws : BalanceLaws h.assets t) (who : AccountId)
      → Course calls s u
      → c.address s.outside.chain ≡ contract
      → SupplyLaws h.assets
      → laws.Dustless (c.ledger s.outside.chain).assets
      → (c.ledger s.outside.chain).events ≡ []
      → (c.ledger u.outside.chain ≡ run h.assets h.weights calls (c.ledger s.outside.chain))
        × (h.assets.balance (c.ledger u.outside.chain).assets t who
            ≡ replayed t
                (c.ledger u.outside.chain).events
                (h.assets.balance (c.ledger s.outside.chain).assets t)
                who)
        × Accounted h.assets t (c.ledger s.outside.chain) (c.ledger u.outside.chain)
  Course-Booked {calls = calls} {s = s} t laws who course at supply fine silent =
      let begun = c.ledger s.outside.chain in
      let ran = Course-run course at in
      let (balances, supplies) =
        subst⁻¹ (Booked h.assets t who begun) ran
          (run-Booked h.assets t who begun laws h.weights calls supply fine silent) in
      (ran, balances, supplies)

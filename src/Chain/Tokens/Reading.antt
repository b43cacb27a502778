-- ===== src/Chain/Tokens/Reading.antt =====
-- The messages of the contract of one token that read (pop-api/examples/fungibles/lib.rs), on the
-- chain.
use pop_node.Prelude.{
  ◌≡◌, refl, ap, [], ◌∙◌, List, Result, ok, err, map_ok, unwrap_or, arith, Exec, none, sym,
}
use pop_node.Frame.{AccountId}
use pop_node.Extension.Environment.{Environment}
use pop_node.Api.Fungibles.Types.{Call, Read, ReadResult}
use pop_node.Api.Fungibles.State
use pop_node.Api.Fungibles.Reads.{read}
use pop_node.Api.Fungibles.Balances.{replayed, BalanceLaws}
use pop_node.Api.Fungibles.Supply.{SupplyLaws}
use pop_node.Runtime.Config.{Host}
use pop_node.PopApi.{StatusCode}
use pop_node.PopApi.Ink.{Ink}
use pop_node.PopApi.Fungibles
use pop_node.PopApi.Queries.{ask}
use pop_node.Contract.{State}
use pop_node.Contract.Messages
use pop_node.Contract.Messages.{as_text}
use pop_node.Contract.Queries.{Query, read_of, as_returned, consult}
use pop_node.Chain.{Dispatches, Executes}
use pop_node.Chain.Reads.{ask-reads}
use pop_node.Chain.Tokens.{CanRead}
use pop_node.Chain.Tokens.Interleaving.{Course, Course-Booked}

value_of :
    {E A : Type 0} (make : A → ReadResult) (r : Result E A) (d v : A)
    → ((x y : A) → make x ≡ make y → x ≡ y)
    → map_ok make r ≡ ok (make v)
    → unwrap_or r d ≡ v
value_of make (ok x) d v inj p = inj x v cc
value_of make (err x) d v inj p = cc

module _ (e : Environment) {Other : Type 0} (h : Host e Other) (ink : Ink)
    (pallet : e.State → State.State h.assets) (f : Dispatches e h pallet)
    (c : Executes e h ink pallet) (contract : AccountId) where
  -- A function of the library for a read gives what the pallet has.
  got :
      {A : Type 0} (make : A → ReadResult) (x : Read) (m : Exec StatusCode ink.State A)
      (t : ink.State) (d v : A)
      → ((x y : A) → make x ≡ make y → x ≡ y)
      → (ask h.scale ink x t).0 ≡ map_ok make (m t).0
      → read h.assets x (c.ledger t).assets ≡ make v
      → CanRead e h ink pallet f c contract x t
      → unwrap_or (m t).0 d ≡ v
  got make x m t d v inj asks reads (r, ranged, pays) =
      value_of make (m t).0 d v inj
        (sym asks ∙ (ask-reads e h ink pallet f c x t r ranged pays).0 ∙ ap ok reads)

  -- Given the documented behaviour of pallet-contracts and FRAME, where the arguments and the result
  -- of the read are within their types and it is paid for: a message of the contract that reads
  -- returns what the pallet has of the contract's token, the name and the symbol where they are
  -- well-formed UTF-8, and changes neither the contract, nor its events, nor the pallet.
  pub consult-reads :
      (q : Query) (s : State h.scale ink)
      → let r = consult h.scale ink q s in
        let x = read_of s.storage.id q in
        let ledger = c.ledger s.outside.chain in
        CanRead e h ink pallet f c contract x s.outside.chain
        → (r.0 ≡ ok (as_returned (read h.assets x ledger.assets)))
          × (r.1.storage ≡ s.storage)
          × (r.1.outside.events ≡ s.outside.events)
          × (c.ledger r.1.outside.chain ≡ ledger)
  unfolding consult read Messages.total_supply Messages.token_name Messages.token_symbol
      Messages.token_decimals Messages.balance_of Messages.allowance
  consult-reads Query.total_supply s can = (
    ap (λ v. ok (ReadResult.total_supply v))
        (got ReadResult.total_supply (Read.total_supply s.storage.id)
          (Fungibles.total_supply h.scale ink s.storage.id) s.outside.chain 0 _
          (λ x y p. ground (arith, p)) refl refl can),
    refl,
    refl,
    (ask-reads e h ink pallet f c (Read.total_supply s.storage.id) s.outside.chain can.0 can.1
        can.2).1,
  )
  consult-reads Query.token_name s can = (
    ap (λ v. ok (ReadResult.token_name (as_text v)))
        (got ReadResult.token_name (Read.token_name s.storage.id)
          (Fungibles.token_name h.scale ink s.storage.id) s.outside.chain none _
          (λ x y p. ground (arith, p)) refl refl can),
    refl,
    refl,
    (ask-reads e h ink pallet f c (Read.token_name s.storage.id) s.outside.chain can.0 can.1
        can.2).1,
  )
  consult-reads Query.token_symbol s can = (
    ap (λ v. ok (ReadResult.token_symbol (as_text v)))
        (got ReadResult.token_symbol (Read.token_symbol s.storage.id)
          (Fungibles.token_symbol h.scale ink s.storage.id) s.outside.chain none _
          (λ x y p. ground (arith, p)) refl refl can),
    refl,
    refl,
    (ask-reads e h ink pallet f c (Read.token_symbol s.storage.id) s.outside.chain can.0 can.1
        can.2).1,
  )
  consult-reads Query.token_decimals s can = (
    ap (λ v. ok (ReadResult.token_decimals v))
        (got ReadResult.token_decimals (Read.token_decimals s.storage.id)
          (Fungibles.token_decimals h.scale ink s.storage.id) s.outside.chain 0 _
          (λ x y p. ground (arith, p)) refl refl can),
    refl,
    refl,
    (ask-reads e h ink pallet f c (Read.token_decimals s.storage.id) s.outside.chain can.0 can.1
        can.2).1,
  )
  consult-reads (Query.balance_of owner) s can = (
    ap (λ v. ok (ReadResult.balance_of v))
        (got ReadResult.balance_of (Read.balance_of s.storage.id owner)
          (Fungibles.balance_of h.scale ink s.storage.id owner) s.outside.chain 0 _
          (λ x y p. ground (arith, p)) refl refl can),
    refl,
    refl,
    (ask-reads e h ink pallet f c (Read.balance_of s.storage.id owner) s.outside.chain can.0 can.1
        can.2).1,
  )
  consult-reads (Query.allowance owner spender) s can = (
    ap (λ v. ok (ReadResult.allowance v))
        (got ReadResult.allowance (Read.allowance s.storage.id owner spender)
          (Fungibles.allowance h.scale ink s.storage.id owner spender) s.outside.chain 0 _
          (λ x y p. ground (arith, p)) refl refl can),
    refl,
    refl,
    (ask-reads e h ink pallet f c (Read.allowance s.storage.id owner spender) s.outside.chain can.0
        can.1 can.2).1,
  )

  -- Given the documented behaviour of pallet-contracts, FRAME and pallet-assets, where the contract's
  -- token exists with a minimum balance of 1 and no event was deposited before: after its messages have
  -- alternated in any way with what others do at the pallet, the contract's `balance_of` returns, where
  -- the read is within its types and paid for, what the pallet's events make of the account's balance
  -- before them.
  pub consult-Course :
      {calls : List (h.assets.Origin × Call)} {s u : State h.scale ink} (who : AccountId)
      (laws : BalanceLaws h.assets u.storage.id)
      → Course e h ink pallet f c contract calls s u
      → c.address s.outside.chain ≡ contract
      → SupplyLaws h.assets
      → laws.Dustless (c.ledger s.outside.chain).assets
      → (c.ledger s.outside.chain).events ≡ []
      → CanRead e h ink pallet f c contract (Read.balance_of u.storage.id who) u.outside.chain
      → (consult h.scale ink (Query.balance_of who) u).0
        ≡ ok (
            ReadResult.balance_of (
              replayed u.storage.id
                (c.ledger u.outside.chain).events
                (h.assets.balance (c.ledger s.outside.chain).assets u.storage.id)
                who))
  unfolding read
  consult-Course {u = u} who laws course at supply fine silent can =
      let (_, booked, _) =
        Course-Booked e h ink pallet f c contract u.storage.id laws who course at supply fine
          silent in
      (consult-reads (Query.balance_of who) u can).0 ∙ ap (λ v. ok (ReadResult.balance_of v)) booked

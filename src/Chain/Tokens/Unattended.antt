-- ===== src/Chain/Tokens/Unattended.antt =====
-- The contract of one token while its owner sends nothing (pop-api/examples/fungibles/lib.rs), among
-- what others do at the fungibles pallet (pallets/api/src/fungibles/mod.rs).
use mathlib.Core.Path.{subst⁻¹}
use pop_node.Prelude.{◌≡◌, ◌≢◌, ◌≤◌, List, [], ◌∷◌, ◌++◌, ==_ne}
use pop_node.Frame.{AccountId, TokenId}
use pop_node.Extension.Environment.{Environment}
use pop_node.Api.Fungibles.Types.{Assets, Call}
use pop_node.Api.Fungibles.State
use pop_node.Api.Fungibles.Running.{AllFrom}
use pop_node.Api.Fungibles.Allowance.{ApprovalLaws}
use pop_node.Api.Fungibles.Balances.{BalanceLaws}
use pop_node.Api.Fungibles.Custody.{AllowanceLaws, Stranger, Unapproved, held}
use pop_node.Api.Fungibles.Custody.Keeping.{run-Unapproved}
use pop_node.Runtime.Config.{Host}
use pop_node.PopApi.Ink.{Ink}
use pop_node.Contract.{State}
use pop_node.Chain.{Dispatches, Executes}
use pop_node.Chain.Tokens.Interleaving.{Course, Course-run}

AllFrom-append :
    (a : Assets) (From : a.Origin → Type 0) (xs ys : List (a.Origin × Call))
    → AllFrom a From xs
    → AllFrom a From ys
    → AllFrom a From (xs ++ ys)
AllFrom-append a From [] ys all others = others
AllFrom-append a From ((o, x) ∷ xs) ys (from, all) others =
    (from, AllFrom-append a From xs ys all others)

module _ (e : Environment) {Other : Type 0} (h : Host e Other) (ink : Ink)
    (pallet : e.State → State.State h.assets) (f : Dispatches e h pallet)
    (c : Executes e h ink pallet) (contract : AccountId) where
  -- Nobody who sends a message is the owner by then, and the calls of others are not the contract's.
  unfoldable pub Unattended :
      {calls : List (h.assets.Origin × Call)} {s u : State h.scale ink}
      → Course e h ink pallet f c contract calls s u
      → Type 0
  Unattended Course.begins = Unit {0}
  Unattended (Course.message {s = s} caller r can rest) =
      (s.storage.owner ≢ caller) × Unattended rest
  Unattended (Course.others theirs chain ran address rest) =
      AllFrom h.assets (Stranger h.assets contract) theirs × Unattended rest

  -- The contract makes none of the calls.
  strangers :
      {calls : List (h.assets.Origin × Call)} {s u : State h.scale ink}
      (course : Course e h ink pallet f c contract calls s u)
      → Unattended course
      → AllFrom h.assets (Stranger h.assets contract) calls
  unfolding Unattended
  strangers Course.begins left = tt
  strangers (Course.message {s = s} caller r can rest) (other, left) =
      rw (==_ne s.storage.owner caller other) (strangers rest left)
  strangers (Course.others {calls = calls} theirs chain ran address rest) (others, left) =
      AllFrom-append h.assets (Stranger h.assets contract) theirs calls others (strangers rest left)

  -- Given the documented behaviour of pallet-contracts, FRAME and pallet-assets, where the token
  -- exists with a minimum balance of 1: as long as the contract's owner sends it no message, whatever
  -- messages it gets from others and whatever calls others make at the pallet, nobody comes to have an
  -- allowance over the contract's tokens if nobody had one, and the contract loses no tokens but those
  -- that events say were burned.
  pub Unattended-held :
      {calls : List (h.assets.Origin × Call)} {s u : State h.scale ink} (t : TokenId)
      (laws : BalanceLaws h.assets t)
      → ApprovalLaws h.assets
      → AllowanceLaws h.assets
      → (course : Course e h ink pallet f c contract calls s u) → Unattended course
      → c.address s.outside.chain ≡ contract
      → laws.Dustless (c.ledger s.outside.chain).assets
      → Unapproved h.assets t contract (c.ledger s.outside.chain)
      → Unapproved h.assets t contract (c.ledger u.outside.chain)
        × (held h.assets t contract (c.ledger s.outside.chain)
            ≤ held h.assets t contract (c.ledger u.outside.chain))
  Unattended-held {calls = calls} {s = s} t laws approvals allowances course left at fine
        unapproved =
      let begun = c.ledger s.outside.chain in
      subst⁻¹
        (λ l.
          Unapproved h.assets t contract l
          × (held h.assets t contract begun ≤ held h.assets t contract l))
        (Course-run e h ink pallet f c contract course at)
        (run-Unapproved h.assets t laws contract approvals allowances h.weights calls begun
          (strangers course left) fine unapproved)

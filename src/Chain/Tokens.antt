-- ===== src/Chain/Tokens.antt =====
-- The contract of one token on the chain: pop-api/examples/fungibles/lib.rs over pop-api/src,
-- extension/src, runtime/devnet/src/config/api and pallets/api/src/fungibles/mod.rs.
pub mod Running
pub mod Announcing
pub mod Told
pub mod Interleaving
pub mod Unattended
pub mod Creating
pub mod Reading
use pop_node.Prelude.{committed, ◌≡◌, List, [], ◌∷◌, ◌++◌, ok}
use pop_node.Frame.{AccountId, TokenId}
use pop_node.Extension.Environment.{Environment}
use pop_node.Api.Fungibles.Types.{Call, Read}
use pop_node.Api.Fungibles.State
use pop_node.Api.Fungibles.Reads.{read}
use pop_node.Runtime.Config.{Host}
use pop_node.PopApi.Ink.{Ink}
use pop_node.PopApi.Requests.{send_call}
use pop_node.PopApi.Queries.{ReadInRange, ResultInRange}
use pop_node.Contract.{State}
use pop_node.Contract.Ownership.{Request, handle}
use pop_node.Contract.Sending.{requested}
use pop_node.Chain.{Dispatches, Executes, PaysRead, bytes_of}
use pop_node.Chain.Reads.{entered_read}
use pop_node.Chain.Sessions.{Affords}

module _ (e : Environment) {Other : Type 0} (h : Host e Other) (ink : Ink)
    (pallet : e.State → State.State h.assets) (f : Dispatches e h pallet)
    (c : Executes e h ink pallet) (contract : AccountId) where
  -- The contract can make a read: its arguments and its result are within their types, and it is
  -- paid for.
  abbrev pub CanRead : Read → ink.State → Type 0
  CanRead x t =
      ReadInRange h.scale x
      × ResultInRange h.scale (read h.assets x (c.ledger t).assets)
      × PaysRead e h x (bytes_of e h x (c.ledger t)) (entered_read e h ink pallet f c x t)

  -- The contract can make the read that follows a request's call, if one does.
  abbrev pub CanFollow : TokenId → Request → ink.State → Type 0
  CanFollow id (Request.transfer_from from to value _) t =
      CanRead (Read.allowance id from contract) t
  CanFollow id (Request.increase_allowance spender value) t =
      CanRead (Read.allowance id contract spender) t
  CanFollow id (Request.decrease_allowance spender value) t =
      CanRead (Read.allowance id contract spender) t
  CanFollow id _ t = Unit {0}

  -- The contract can make the calls of a request, and the read that follows where a call succeeds.
  pub record CanHandle (caller : AccountId) (r : Request) (s : State h.scale ink) : Type 0 where
    pub calls : Affords e h ink pallet f c (requested contract caller s.storage r) s.outside.chain
    pub read :
        (x : Call)
        → requested contract caller s.storage r ≡ x ∷ []
        → (send_call h.scale ink x s.outside.chain).0 ≡ ok tt
        → CanFollow s.storage.id r (send_call h.scale ink x s.outside.chain).1

  -- One message; a message that fails is reverted.
  abbrev pub next : AccountId → Request → State h.scale ink → State h.scale ink
  next caller r s = committed (handle h.scale ink contract caller r s) s

  -- The messages in their order, each from its caller.
  unfoldable pub life : List (AccountId × Request) → State h.scale ink → State h.scale ink
  life [] s = s
  life ((caller, r) ∷ messages) s = life messages (next caller r s)

  -- The calls of the chain that they make: those of whoever is the owner by then.
  unfoldable pub called : List (AccountId × Request) → State h.scale ink → List Call
  called [] s = []
  called ((caller, r) ∷ messages) s =
      requested contract caller s.storage r ++ called messages (next caller r s)

  -- The contract can handle each message when it comes to it.
  unfoldable pub CanLive : List (AccountId × Request) → State h.scale ink → Type 0
  CanLive [] s = Unit {0}
  CanLive ((caller, r) ∷ messages) s = CanHandle caller r s × CanLive messages (next caller r s)

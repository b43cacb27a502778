-- ===== src/Chain/Sessions.antt =====
-- Any sequence of requests of one contract, from its library to pallet-assets:
-- pop-api/src/v0/fungibles/mod.rs against pallets/api/src/fungibles/mod.rs.
use mathlib.Core.Path.{subst⁻¹}
use pop_node.Prelude.{◌≡◌, refl, ap, ◌∙◌, List, [], ◌∷◌, map}
use pop_node.Frame.{AccountId, TokenId}
use pop_node.Extension.Environment.{Environment}
use pop_node.Api.Fungibles.Types.{Call}
use pop_node.Api.Fungibles.State.{State}
use pop_node.Api.Fungibles.Running.{run}
use pop_node.Api.Fungibles.Balances.{replayed, BalanceLaws}
use pop_node.Api.Fungibles.Supply.{SupplyLaws, Accounted}
use pop_node.Api.Fungibles.Books.{Booked, run-Booked}
use pop_node.Runtime.Config.{Host}
use pop_node.PopApi.Ink.{Ink}
use pop_node.PopApi.Requests.{send_call, CallInRange}
use pop_node.Chain.{Dispatches, Executes, Pays}
use pop_node.Chain.Calls.{entered, send_call-dispatches, send_call-address}

module _ (e : Environment) {Other : Type 0} (h : Host e Other) (ink : Ink)
    (pallet : e.State → State h.assets) (f : Dispatches e h pallet)
    (c : Executes e h ink pallet) where
  -- The requests in their order, whatever the contract gets for an answer.
  unfoldable pub send_all : List Call → ink.State → ink.State
  send_all [] s = s
  send_all (x ∷ xs) s = send_all xs (send_call h.scale ink x s).1

  -- Every request has its arguments within their types, and the contract can pay for it when it comes
  -- to it.
  unfoldable pub Affords : List Call → ink.State → Type 0
  Affords [] s = Unit {0}
  Affords (x ∷ xs) s =
      CallInRange h.scale x
      × Pays e h x (entered e h ink pallet f c x s)
      × Affords xs (send_call h.scale ink x s).1

  -- The calls that the requests make at the pallet.
  abbrev pub calls_of : AccountId → List Call → List (h.assets.Origin × Call)
  calls_of who xs = map (λ x. (f.signed who, x)) xs

  -- Given the documented behaviour of pallet-contracts and FRAME, any sequence of requests that the
  -- contract affords, the successful and the failing ones, leaves the pallet in the state that the
  -- pallet's functions of those names, called in this order at the contract's address, lead to.
  pub send_all-run :
      (xs : List Call) (s : ink.State)
      → Affords xs s
      → c.ledger (send_all xs s) ≡ run h.assets h.weights (calls_of (c.address s) xs) (c.ledger s)
  unfolding send_all Affords run
  send_all-run [] s affords = refl
  send_all-run (x ∷ xs) s (r, pays, affords) =
      let s' = (send_call h.scale ink x s).1 in
      let (_, state) = send_call-dispatches e h ink pallet f c x s r pays in
      send_all-run xs s' affords
      ∙ ap (λ who. run h.assets h.weights (calls_of who xs) (c.ledger s'))
          (send_call-address e h ink pallet f c x s r pays)
      ∙ ap (run h.assets h.weights (calls_of (c.address s) xs)) state

  -- Given the documented behaviour of pallet-contracts, FRAME and pallet-assets, where a token exists
  -- with a minimum balance of 1 and no event was deposited before: after any sequence of requests that
  -- a contract affords, every account's balance of the token is what the events make of the balances
  -- before them, and the supply with what they say was burned comes to no more than the supply before
  -- with what they say was minted.
  pub send_all-told :
      (t : TokenId) (laws : BalanceLaws h.assets t) (who : AccountId) (xs : List Call)
      (s : ink.State)
      → SupplyLaws h.assets
      → laws.Dustless (c.ledger s).assets
      → (c.ledger s).events ≡ []
      → Affords xs s
      → let s' = send_all xs s in
        (h.assets.balance (c.ledger s').assets t who
          ≡ replayed t (c.ledger s').events (h.assets.balance (c.ledger s).assets t) who)
        × Accounted h.assets t (c.ledger s) (c.ledger s')
  send_all-told t laws who xs s supply fine silent affords =
      subst⁻¹ (Booked h.assets t who (c.ledger s)) (send_all-run xs s affords) (
        run-Booked h.assets t who (c.ledger s) laws h.weights (calls_of (c.address s) xs) supply
          fine silent)

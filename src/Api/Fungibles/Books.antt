-- ===== src/Api/Fungibles/Books.antt =====
-- What the events of any sequence of calls say of a token (pallets/api/src/fungibles/mod.rs).
use mathlib.Core.Path.{subst}
use pop_node.Prelude.{◌≡◌, sym, List, []}
use pop_node.Frame.{AccountId, TokenId}
use pop_node.Api.Fungibles.Types.{Assets, WeightInfo, Call}
use pop_node.Api.Fungibles.State.{State}
use pop_node.Api.Fungibles.Running.{run}
use pop_node.Api.Fungibles.Balances.{replayed, BalanceLaws}
use pop_node.Api.Fungibles.Balances.Replaying.{run-replayed}
use pop_node.Api.Fungibles.Supply.{SupplyLaws, Accounted}
use pop_node.Api.Fungibles.Supply.Accounting.{run-Accounted}

module _ (a : Assets) (t : TokenId) (who : AccountId) (l : State a) where
  -- The events account for the account's balance of the token and for the token's supply.
  abbrev pub Booked : State a → Type 0
  Booked l' =
      (a.balance l'.assets t who ≡ replayed t l'.events (a.balance l.assets t) who)
      × Accounted a t l l'

  pub run-Booked :
      (laws : BalanceLaws a t) (w : WeightInfo) (calls : List (a.Origin × Call))
      → SupplyLaws a
      → laws.Dustless l.assets
      → l.events ≡ []
      → Booked (run a w calls l)
  run-Booked laws w calls supply fine silent = (
    subst
        (λ events.
          let l' = run a w calls (record l { events = events }) in
          a.balance l'.assets t who ≡ replayed t l'.events (a.balance l.assets t) who)
        (sym silent) (run-replayed a t laws w calls l.assets who fine),
    run-Accounted a supply l t w calls,
  )

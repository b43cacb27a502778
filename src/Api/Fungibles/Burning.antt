-- ===== src/Api/Fungibles/Burning.antt =====
-- What `burn` promises (pallets/api/src/fungibles/mod.rs).
use pop_node.Prelude.{◌+◌, ◌≤◌, ◌<◌, ◌≡◌, arith, Option, some, none, ok, err, ◌∷◌}
use pop_node.Frame.{AccountId, TokenId, Balance, Weight}
use pop_node.Api.Fungibles.Types.{Assets, WeightInfo, Event}
use pop_node.Api.Fungibles.State.{State}
use pop_node.Api.Fungibles.Calls.{burn}

-- What pallet-assets documents: `burn` reduces the balance by as much as possible up to the amount.
-- So a balance that covers the amount falls by the amount at least, and what remains may be dust that
-- goes too.
pub record BurnLaws (a : Assets) : Type 0 where
  pub burn_takes :
      (o : a.Origin) (t : TokenId) (who : AccountId) (v : Balance) (s : a.State)
      → v ≤ a.balance s t who
      → (a.burn o t who v s).0 ≡ ok tt
      → a.balance (a.burn o t who v s).1 t who + v ≤ a.balance s t who

module _ (a : Assets) (w : WeightInfo) (o : a.Origin) (t : TokenId) (who : AccountId) (v : Balance)
    (s : State a) where
  -- Where pallet-assets keeps its law on burning, a burn that succeeds takes at least the whole
  -- value from the account, and its one event names the value.
  pub burn_takes_value :
      {r : Option Weight} {s' : State a}
      → BurnLaws a
      → burn a w o t who v s ≡ (ok r, s')
      → (a.balance s'.assets t who + v ≤ a.balance s.assets t who)
        × (s'.events ≡ Event.transfer t (some who) none v ∷ s.events)
  unfolding burn
  burn_takes_value laws h = ground (arith, laws.burn_takes o t who v s.assets)

  -- A burn of more than the account holds fails with `BalanceLow`, changes nothing, and costs the
  -- weight of reading the balance.
  pub burn-balance_low :
      a.balance s.assets t who < v
      → burn a w o t who v s
        ≡ (err (record { actual_weight = some w.balance_of; error = a.balance_low }), s)
  unfolding burn
  burn-balance_low h = ground arith

  -- A burn of more than the account holds fails with `BalanceLow`, changes nothing, and costs the
  -- weight of reading the balance. Where pallet-assets keeps its law on burning, a burn that succeeds
  -- takes at least the whole value from the account, and its one event names the value.
  pub burn-outcome :
      BurnLaws a
      → (a.balance s.assets t who < v
          → burn a w o t who v s
            ≡ (err (record { actual_weight = some w.balance_of; error = a.balance_low }), s))
        × ((r : Option Weight) (s' : State a)
            → burn a w o t who v s ≡ (ok r, s')
            → (a.balance s'.assets t who + v ≤ a.balance s.assets t who)
              × (s'.events ≡ Event.transfer t (some who) none v ∷ s.events))
  burn-outcome laws = (burn-balance_low, λ r s' h. burn_takes_value laws h)

-- ===== src/Api/Fungibles/State.antt =====
-- The state of the fungibles pallet: that of pallet-assets, and the events deposited so far, the
-- newest first. A dispatchable function fails with the weight that it used, if it says so.
use pop_node.Prelude.{List, ◌∷◌, some, none, ok, map_err, Exec}
use pop_node.Frame.{Weight, DispatchError}
use pop_node.Api.Fungibles.Types.{Assets, Event, ErrorWithPostInfo}

module _ (a : Assets) where
  pub record State : Type 0 where
    pub assets : a.State
    pub events : List Event

  -- `DispatchResult`
  abbrev pub Dispatch : Type 0
  Dispatch = Exec DispatchError State (Unit {0})

  -- `DispatchResultWithPostInfo`
  abbrev pub DispatchWithPostInfo : Type 0 → Type 0
  DispatchWithPostInfo A = Exec ErrorWithPostInfo State A

  -- A call of pallet-assets.
  abbrev pub on_assets : {A : Type 0} → Exec DispatchError a.State A → Exec DispatchError State A
  on_assets m s = ((m s.assets).0, record s { assets = (m s.assets).1 })

  abbrev pub deposit_event : {E : Type 0} → Event → Exec E State (Unit {0})
  deposit_event event s = (ok tt, record s { events = event ∷ s.events })

  -- `.map_err(|e| e.with_weight(w))?`
  abbrev pub with_weight :
      {A : Type 0} → Weight → Exec DispatchError State A → DispatchWithPostInfo A
  with_weight w m s = (map_err (λ x. record { actual_weight = some w; error = x }) (m s).0, (m s).1)

  -- `?` on a `DispatchResult` in a function that returns a `DispatchResultWithPostInfo`
  abbrev pub no_weight : {A : Type 0} → Exec DispatchError State A → DispatchWithPostInfo A
  no_weight m s = (map_err (λ x. record { actual_weight = none; error = x }) (m s).0, (m s).1)

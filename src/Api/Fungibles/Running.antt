-- ===== src/Api/Fungibles/Running.antt =====
-- Any sequence of calls, and what it takes for a predicate on the state to be an invariant of all of
-- them (pallets/api/src/fungibles/mod.rs).
pub mod Preserving
pub mod Invariant
use pop_node.Prelude.{◌++◌, refl, ℕ, ◌≤◌, ◌≡◌, List, [], ◌∷◌, none, some, ok, committed}
use pop_node.Frame.{AccountId, TokenId, Balance}
use pop_node.Api.Fungibles.Types.{Assets, WeightInfo, Call, Event}
use pop_node.Api.Fungibles.State.{State}
use pop_node.Api.Fungibles.Dispatch.{dispatch}

module _ (a : Assets) where
  module _ (w : WeightInfo) where
    -- The calls in their order, each from its origin; a failure is rolled back.
    unfoldable pub run : List (a.Origin × Call) → State a → State a
    run [] s = s
    run ((o, c) ∷ calls) s = run calls (committed (dispatch a w o c s) s)

    pub run-append :
        (xs ys : List (a.Origin × Call)) (s : State a) → run (xs ++ ys) s ≡ run ys (run xs s)
    unfolding run
    run-append [] ys s = refl
    run-append ((o, c) ∷ xs) ys s = run-append xs ys (committed (dispatch a w o c s) s)

  -- The state after a call of pallet-assets, and after an event.
  abbrev pub moved : a.State → State a → State a
  moved assets s = record s { assets = assets }

  abbrev pub announced : Event → State a → State a
  announced event s = record s { events = event ∷ s.events }

  -- Every call comes from such an origin.
  abbrev pub AllFrom : (a.Origin → Type 0) → List (a.Origin × Call) → Type 0
  AllFrom From [] = Unit {0}
  AllFrom From ((o, c) ∷ calls) = From o × AllFrom From calls

  -- The predicate outlives what the functions of the pallet do for such origins: each call of
  -- pallet-assets that succeeds, with the event that announces it.
  pub record Sustains (From : a.Origin → Type 0) (Good : State a → Type 0) : Type 0 where
    pub approve :
        (o : a.Origin) (t : TokenId) (d : AccountId) (v : Balance) (s : State a)
        → From o
        → Good s
        → (a.approve_transfer o t d v s.assets).0 ≡ ok tt
        → Good (moved (a.approve_transfer o t d v s.assets).1 s)
    pub cancel :
        (o : a.Origin) (t : TokenId) (d : AccountId) (s : State a)
        → From o
        → Good s
        → (a.cancel_approval o t d s.assets).0 ≡ ok tt
        → Good (moved (a.cancel_approval o t d s.assets).1 s)
    pub approval :
        (t : TokenId) (owner d : AccountId) (v : Balance) (s : State a)
        → Good s
        → Good (announced (Event.approval t owner d v) s)
    pub transfer :
        (o : a.Origin) (from : AccountId) (t : TokenId) (to : AccountId) (v : Balance) (s : State a)
        → From o
        → Good s
        → a.ensure_signed o ≡ ok from
        → (a.transfer_keep_alive o t to v s.assets).0 ≡ ok tt
        → Good (
            announced
              (Event.transfer t (some from) (some to) v)
              (moved (a.transfer_keep_alive o t to v s.assets).1 s))
    pub transfer_from :
        (o : a.Origin) (t : TokenId) (from to : AccountId) (v : Balance) (s : State a)
        → From o
        → Good s
        → (a.transfer_approved o t from to v s.assets).0 ≡ ok tt
        → Good (
            announced
              (Event.transfer t (some from) (some to) v)
              (moved (a.transfer_approved o t from to v s.assets).1 s))
    pub create :
        (o : a.Origin) (creator : AccountId) (t : TokenId) (admin : AccountId) (m : Balance)
        (s : State a)
        → From o
        → Good s
        → (a.create o t admin m s.assets).0 ≡ ok tt
        → Good
            (announced (Event.created t creator admin) (moved (a.create o t admin m s.assets).1 s))
    pub start_destroy :
        (o : a.Origin) (t : TokenId) (s : State a)
        → From o
        → Good s
        → (a.start_destroy o t s.assets).0 ≡ ok tt
        → Good (moved (a.start_destroy o t s.assets).1 s)
    pub set_metadata :
        (o : a.Origin) (t : TokenId) (name symbol : List ℕ) (d : ℕ) (s : State a)
        → From o
        → Good s
        → (a.set_metadata o t name symbol d s.assets).0 ≡ ok tt
        → Good (moved (a.set_metadata o t name symbol d s.assets).1 s)
    pub clear_metadata :
        (o : a.Origin) (t : TokenId) (s : State a)
        → From o
        → Good s
        → (a.clear_metadata o t s.assets).0 ≡ ok tt
        → Good (moved (a.clear_metadata o t s.assets).1 s)
    pub mint :
        (o : a.Origin) (t : TokenId) (who : AccountId) (v : Balance) (s : State a)
        → From o
        → Good s
        → (a.mint o t who v s.assets).0 ≡ ok tt
        → Good
            (announced (Event.transfer t none (some who) v) (moved (a.mint o t who v s.assets).1 s))
    pub burn :
        (o : a.Origin) (t : TokenId) (who : AccountId) (v : Balance) (s : State a)
        → From o
        → Good s
        → v ≤ a.balance s.assets t who
        → (a.burn o t who v s.assets).0 ≡ ok tt
        → Good
            (announced (Event.transfer t (some who) none v) (moved (a.burn o t who v s.assets).1 s))

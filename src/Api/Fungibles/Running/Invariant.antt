-- ===== src/Api/Fungibles/Running/Invariant.antt =====
-- What all functions of the pallet preserve is an invariant of every sequence of calls
-- (pallets/api/src/fungibles/mod.rs).
use pop_node.Prelude.{inl, inr, List, [], ◌∷◌, Result-cases}
use pop_node.Api.Fungibles.Types.{Assets, WeightInfo, Call}
use pop_node.Api.Fungibles.State.{State}
use pop_node.Api.Fungibles.Dispatch.{dispatch}
use pop_node.Api.Fungibles.Calls
use pop_node.Api.Fungibles.Running.{Sustains, AllFrom, run}
use pop_node.Api.Fungibles.Running.Preserving.{
  Preserves, plain-Preserves, approve-Preserves, increase_allowance-Preserves,
  decrease_allowance-Preserves, transfer-Preserves, transfer_from-Preserves, create-Preserves,
  mint-Preserves, burn-Preserves,
}

module _ (a : Assets) (w : WeightInfo) (From : a.Origin → Type 0) (Good : State a → Type 0)
    (keeps : Sustains a From Good) where
  dispatch-Preserves : (o : a.Origin) → From o → (c : Call) → Preserves a Good (dispatch a w o c)
  unfolding dispatch Preserves Calls.start_destroy Calls.set_metadata Calls.clear_metadata
  dispatch-Preserves o may (Call.transfer t to v) =
      plain-Preserves a Good _ (transfer-Preserves a Good w From keeps o may t to v)
  dispatch-Preserves o may (Call.transfer_from t from to v) =
      plain-Preserves a Good _ (transfer_from-Preserves a Good w From keeps o may t from to v)
  dispatch-Preserves o may (Call.approve t d v) = approve-Preserves a Good w From keeps o may t d v
  dispatch-Preserves o may (Call.increase_allowance t d v) =
      increase_allowance-Preserves a Good w From keeps o may t d v
  dispatch-Preserves o may (Call.decrease_allowance t d v) =
      decrease_allowance-Preserves a Good w From keeps o may t d v
  dispatch-Preserves o may (Call.create t admin m) =
      plain-Preserves a Good _ (create-Preserves a Good w From keeps o may t admin m)
  dispatch-Preserves o may (Call.start_destroy t) =
      plain-Preserves a Good _ (λ s r. keeps.start_destroy o t s may)
  dispatch-Preserves o may (Call.set_metadata t name symbol d) =
      plain-Preserves a Good _ (λ s r. keeps.set_metadata o t name symbol d s may)
  dispatch-Preserves o may (Call.clear_metadata t) =
      plain-Preserves a Good _ (λ s r. keeps.clear_metadata o t s may)
  dispatch-Preserves o may (Call.mint t who v) =
      plain-Preserves a Good _ (mint-Preserves a Good w From keeps o may t who v)
  dispatch-Preserves o may (Call.burn t who v) = burn-Preserves a Good w From keeps o may t who v

  -- A predicate that outlives what the functions do holds after any calls, from such origins and with
  -- failures rolled back, if it holds before.
  pub run-Preserves :
      (calls : List (a.Origin × Call)) (s : State a)
      → AllFrom a From calls
      → Good s
      → Good (run a w calls s)
  unfolding run Preserves
  run-Preserves [] s tt good = good
  run-Preserves ((o, c) ∷ calls) s (may, all) good = elim (Result-cases (dispatch a w o c s).0) [
    | inl (r, p) ↦
        rw p
          (run-Preserves calls (dispatch a w o c s).1 all (dispatch-Preserves o may c s r good p))
    | inr (e, p) ↦ rw p (run-Preserves calls s all good)
  ]

module _ (a : Assets) where
  -- Any origin.
  abbrev pub Anyone : a.Origin → Type 0
  Anyone o = Unit {0}

  pub from_Anyone : (calls : List (a.Origin × Call)) → AllFrom a Anyone calls
  from_Anyone [] = tt
  from_Anyone ((o, c) ∷ calls) = (tt, from_Anyone calls)

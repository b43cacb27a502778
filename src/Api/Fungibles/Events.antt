-- ===== src/Api/Fungibles/Events.antt =====
-- What each call of the fungibles pallet announces (pallets/api/src/fungibles/mod.rs).
use pop_node.Prelude.{
  ◌≡◌, sym, ap, ◌∙◌, inl, inr, arith, ◌==◌, Bool-cases, if◌then◌else◌, List, [], ◌∷◌, ◌++◌, Option,
  none, some, ok,
}
use pop_node.Frame.{AccountId, Weight}
use pop_node.Api.Fungibles.Types.{Assets, WeightInfo, Call, Event}
use pop_node.Api.Fungibles.State.{State}
use pop_node.Api.Fungibles.Calls
use pop_node.Api.Fungibles.Dispatch.{dispatch}
use pop_node.Api.Fungibles.Allowance.{
  ApprovalLaws, approve_sets, increase_allowance_adds, decrease_allowance_subtracts,
}

module _ (a : Assets) (who : AccountId) where
  -- The events of a call, from the account that makes it and the state that it leaves.
  abbrev pub events_of : Call → a.State → List Event
  events_of (Call.transfer t to v) s = Event.transfer t (some who) (some to) v ∷ []
  events_of (Call.transfer_from t from to v) s = Event.transfer t (some from) (some to) v ∷ []
  events_of (Call.approve t d v) s = Event.approval t who d v ∷ []
  events_of (Call.increase_allowance t d v) s = Event.approval t who d (a.allowance s t who d) ∷ []
  events_of (Call.decrease_allowance t d v) s =
      if v == 0 then [] else Event.approval t who d (a.allowance s t who d) ∷ []
  events_of (Call.create t admin m) s = Event.created t who admin ∷ []
  events_of (Call.start_destroy t) s = []
  events_of (Call.set_metadata t name symbol d) s = []
  events_of (Call.clear_metadata t) s = []
  events_of (Call.mint t account v) s = Event.transfer t none (some account) v ∷ []
  events_of (Call.burn t account v) s = Event.transfer t (some account) none v ∷ []

module _ (a : Assets) (w : WeightInfo) (laws : ApprovalLaws a) (o : a.Origin) (who : AccountId)
    (signed : a.ensure_signed o ≡ ok who) where
  -- Where pallet-assets keeps its laws on approvals, a call from a signed origin that succeeds
  -- deposits exactly the events that it is to announce: a transfer with its two accounts, an allowance
  -- as it then is, and none where a decrease by zero changes nothing.
  pub dispatch-events :
      (x : Call) (s : State a) {r : Option Weight} {s' : State a}
      → dispatch a w o x s ≡ (ok r, s')
      → s'.events ≡ events_of a who x s'.assets ++ s.events
  unfolding dispatch Calls.transfer Calls.transfer_from Calls.create Calls.start_destroy
      Calls.set_metadata Calls.clear_metadata Calls.mint Calls.burn Calls.decrease_allowance
  dispatch-events (Call.approve t d v) s p = (approve_sets a w laws o t d who signed v s p).1
  dispatch-events (Call.increase_allowance t d v) s p =
      let (adds, event) = increase_allowance_adds a w laws o t d who signed v s p in
      event ∙ ap (λ x. Event.approval t who d x ∷ s.events) (sym adds)
  dispatch-events (Call.decrease_allowance t d v) s p = elim (Bool-cases (v == 0)) [
    | inl z ↦ rw z (ap (λ x. x.1.events) (sym (rw (signed, z, Calls.decrease_allowance) at p)))
    | inr n ↦
        rw n ((decrease_allowance_subtracts a w laws o t d who signed v s (ground (arith, n)) p).1)
  ]
  dispatch-events (Call.transfer t to v) s p = ground (arith, signed)
  dispatch-events _ s p = ground (arith, signed)

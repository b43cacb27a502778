-- ===== src/Api/Fungibles/Dispatch.antt =====
-- pallets/api/src/fungibles/mod.rs: the table of dispatchable functions (`#[pallet::call]`), with
-- the events of a failed call.
use pop_node.Prelude.{◌≡◌, arith, Option, none, err, ◌>>◌, pure}
use pop_node.Frame.{Weight}
use pop_node.Api.Fungibles.Types.{Assets, WeightInfo, Call, ErrorWithPostInfo}
use pop_node.Api.Fungibles.State.{State, Dispatch, DispatchWithPostInfo, no_weight}
use pop_node.Api.Fungibles.Calls

module _ (a : Assets) (w : WeightInfo) where
  -- A `DispatchResult` as a `DispatchResultWithPostInfo`.
  abbrev plain : Dispatch a → DispatchWithPostInfo a (Option Weight)
  plain m = do no_weight a m; pure none

  -- The function that a call names, with its arguments.
  unfoldable pub dispatch : a.Origin → Call → DispatchWithPostInfo a (Option Weight)
  dispatch o (Call.transfer token to value) = plain (Calls.transfer a o token to value)
  dispatch o (Call.transfer_from token from to value) =
      plain (Calls.transfer_from a o token from to value)
  dispatch o (Call.approve token spender value) = Calls.approve a w o token spender value
  dispatch o (Call.increase_allowance token spender value) =
      Calls.increase_allowance a w o token spender value
  dispatch o (Call.decrease_allowance token spender value) =
      Calls.decrease_allowance a w o token spender value
  dispatch o (Call.create id admin min_balance) = plain (Calls.create a o id admin min_balance)
  dispatch o (Call.start_destroy token) = plain (Calls.start_destroy a o token)
  dispatch o (Call.set_metadata token name symbol decimals) =
      plain (Calls.set_metadata a o token name symbol decimals)
  dispatch o (Call.clear_metadata token) = plain (Calls.clear_metadata a o token)
  dispatch o (Call.mint token account value) = plain (Calls.mint a o token account value)
  dispatch o (Call.burn token account value) = Calls.burn a w o token account value

  -- A call that fails deposits no event.
  pub dispatch-events_of_failure :
      (o : a.Origin) (c : Call) (s : State a) {x : ErrorWithPostInfo} {s' : State a}
      → dispatch o c s ≡ (err x, s')
      → s'.events ≡ s.events
  unfolding dispatch Calls.transfer Calls.transfer_from Calls.create Calls.start_destroy
      Calls.set_metadata Calls.clear_metadata Calls.mint Calls.burn Calls.approve
      Calls.set_allowance Calls.approve_greater Calls.approve_less Calls.approve_anew
      Calls.increase_allowance Calls.decrease_allowance Calls.decrease_by Calls.lower_allowance
  dispatch-events_of_failure o (Call.transfer token to value) s h = ground arith
  dispatch-events_of_failure o _ s h = ground arith

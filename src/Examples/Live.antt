-- ===== src/Examples/Live.antt =====
-- A chain that runs the pallet: an environment whose state holds the request, the output and the state
-- of the fungibles pallet on the ledger, a runtime that dispatches the pallet's calls on it, and a
-- contract of account 1 whose calls are answered by the runtime's chain extension.
use pop_node.Prelude.{
  committed, ℕ, ◌/◌, ◌%◌, ◌≡◌, refl, sym, ap, Bool, true, false, List, [], length, Result, ok, err,
  none, some, if◌then◌else◌,
}
use pop_node.Frame.{AccountId, DispatchError, RetVal, converging, DispatchOutcome}
use pop_node.Extension.Environment.{Environment}
use pop_node.Api.Fungibles.State.{State}
use pop_node.Api.Fungibles.Dispatch.{dispatch}
use pop_node.Runtime.Calls.{RuntimeCall}
use pop_node.Runtime.Config.{Host, call_api}
use pop_node.PopApi.Ink.{Ink, answer}
use pop_node.Chain.{Dispatches, Executes, without_info}
use pop_node.Examples.Machine.{weight}
use pop_node.Examples.Codecs.{codecs}
use pop_node.Examples.Ledger.{ledger, weights}
use pop_node.Examples.Runtime.{Remark, remark, call_filtered}

pub record Live : Type 0 where
  pub func_id : ℕ
  pub ext_id : ℕ
  pub input : List ℕ
  pub output : List ℕ
  pub pallet : State ledger

abbrev pub live : Environment
live = record {
  State = Live;
  ChargedAmount = Unit {0};
  func_id = λ s. s.func_id;
  ext_id = λ s. s.ext_id;
  charge_weight = λ w s. (ok tt, s);
  adjust_weight = λ c w s. s;
  address = λ s. 1;
  in_len = λ s. length s.input;
  read = λ n s. ok s.input;
  write = λ bytes skip w s. (ok tt, record s { output = bytes });
}

abbrev run_call : AccountId → RuntimeCall Remark → Live → DispatchOutcome × Live
run_call who (RuntimeCall.fungibles x) s =
    let r = dispatch ledger weights who x s.pallet in
    (
      record { actual_weight = none; result = without_info r.0 },
      record s { pallet = committed r s.pallet },
    )
run_call who (RuntimeCall.balances x) s = (record { actual_weight = none; result = ok tt }, s)
run_call who (RuntimeCall.elsewhere x) s = (record { actual_weight = none; result = ok tt }, s)

abbrev dispatch_filtered :
    (RuntimeCall Remark → Bool) → AccountId → RuntimeCall Remark → Live → DispatchOutcome × Live
dispatch_filtered filter who call s =
    if filter call
    then run_call who call s
    else (record { actual_weight = none; result = err call_filtered }, s)

abbrev pub host : Host live Remark
host = record {
  scale = codecs;
  others = λ i bytes. some (RuntimeCall.elsewhere remark, bytes);
  seal_return = λ n. weight n;
  seal_input = λ n. weight n;
  seal_debug_message = λ n. weight n;
  dispatch_weight = λ c. weight 10;
  dispatch = dispatch_filtered;
  extract_actual_weight = λ o w. w;
  assets = ledger;
  assets_in = λ s. s.pallet.assets;
  weights = weights;
  call_filtered = call_filtered;
}

run_call-func_id :
    (who : AccountId) (call : RuntimeCall Remark) (s : Live)
    → (run_call who call s).1.func_id ≡ s.func_id
run_call-func_id who (RuntimeCall.fungibles x) s = refl
run_call-func_id who _ s = refl

pub stays :
    (b : Bool) (who : AccountId) (call : RuntimeCall Remark) (s : Live)
    → (if b
        then run_call who call s
        else (record { actual_weight = none; result = err call_filtered }, s)).1.func_id
      ≡ s.func_id
stays true who call s = run_call-func_id who call s
stays false who call s = refl

abbrev pub dispatches : Dispatches live host (λ s. s.pallet)
dispatches = record {
  keeps = record {
    charge_keeps = λ w s. refl;
    adjust_keeps = λ c w s. refl;
    write_keeps = λ bytes skip w s. refl;
  };
  signed = λ who. who;
  signed_by = λ who. refl;
  reads = λ s. refl;
  request_stays = λ filter who call s. stays (filter call) who call s;
  result_is = λ filter who x s p. rw p refl;
  state_is = λ filter who x s p. rw p refl;
}

-- A call that does not converge ends the contract; it never sees this answer.
abbrev settled : Result DispatchError RetVal × Live → (ℕ × List ℕ) × State ledger
settled (ok (converging code), env) = ((code, env.output), env.pallet)
settled (err x, env) = ((0, []), env.pallet)

abbrev entered : ℕ → List ℕ → State ledger → Live
entered method input st = record {
  func_id = method % 65536;
  ext_id = method / 65536;
  input = input;
  output = [];
  pallet = st;
}

abbrev pub contract : Ink
contract = record {
  State = State ledger;
  invoke = λ method input st. settled (call_api live host (entered method input st));
  call = λ method input status output st.
      let r = settled (call_api live host (entered method input st)) in
      (answer status output r.0, r.1);
  call_invokes = λ method input status output st. refl;
}

abbrev pub executes : Executes live host contract (λ s. s.pallet)
executes = record {
  enter = entered;
  leave = λ st env. env.pallet;
  written = λ env. env.output;
  ledger = λ st. st;
  address = λ st. 1;
  receives = λ method input st. record { func_id = refl; ext_id = refl; read = refl };
  enter_keeps = λ method input st. refl;
  enter_address = λ method input st. refl;
  leave_keeps = λ st env. refl;
  leave_address = λ st env. refl;
  writes = λ bytes env env' p. ap (λ r. r.1.output) (sym p);
  converges = λ method input st code env p. ap settled p;
  request = record {
    func_id_keeps = λ w s. refl;
    ext_id_keeps = λ w s. refl;
    in_len_keeps = λ w s. refl;
    address_keeps = λ w s. refl;
    read_keeps = λ n w s. refl;
    adjust_keeps = λ c w s. refl;
  };
}

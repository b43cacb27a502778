-- ===== src/Extension/Functions.antt =====
-- extension/src/functions.rs: the functions of a chain extension. The type parameters of the Rust
-- types are the fields of the records; what FRAME does with a call (`get_dispatch_info`, `dispatch`
-- behind the origin's filter, `extract_actual_weight`) is among them.
use pop_node.Prelude.{
  ℕ, Bool, none, List, [], ◌∷◌, length, Result, ok, err, Exec, pure, lift, gets, modify, ensure,
  ◌>>=◌, ◌>>◌, if◌then◌else◌,
}
use pop_node.Frame.{AccountId, Weight, DispatchError, RetVal, converging, DispatchOutcome}
use pop_node.Extension.Environment.{Environment}
use pop_node.Extension.Decoding.{Decoder, decode}

module _ (e : Environment) where
  open e use {State, charge_weight, adjust_weight, address, write}

  -- The traits `Function` and `Matches`.
  pub record Function : Type 0 where
    pub matches : State → Bool
    pub execute : Exec DispatchError State RetVal

  -- `ErrorConverter::convert`
  abbrev pub ErrorConverter : Type 0
  ErrorConverter = DispatchError → State → Result DispatchError RetVal

  -- `impl ErrorConverter for ()`
  unfoldable pub no_conversion : ErrorConverter
  no_conversion error env = err error

  -- `DispatchCall<M, C, D, F, E, L>`
  pub record DispatchCall (Output Call : Type 0) : Type 0 where
    pub matcher : State → Bool
    pub decoder : Decoder e Output
    pub into : Output → Call
    pub filter : Call → Bool
    pub convert : ErrorConverter
    pub dispatch_weight : Call → Weight
    pub dispatch : (Call → Bool) → AccountId → Call → State → DispatchOutcome × State
    pub extract_actual_weight : DispatchOutcome → Weight → Weight

  -- `ReadState<M, C, R, D, F, RC, E, L>`
  pub record ReadState (Output Read ReadResult : Type 0) : Type 0 where
    pub matcher : State → Bool
    pub decoder : Decoder e Output
    pub into : Output → Read
    pub weight : Read → Weight
    pub filter : Read → Bool
    pub call_filtered : DispatchError
    pub read : Read → State → ReadResult
    pub try_convert : ReadResult → State → Result DispatchError (List ℕ)
    pub seal_input : ℕ → Weight

  module _ {Output Call : Type 0} (f : DispatchCall Output Call) where
    unfoldable pub finish : Result DispatchError (Unit {0}) → Exec DispatchError State RetVal
    finish (ok _) env = (ok (converging 0), env)
    finish (err error) env = (f.convert error env, env)

    unfoldable pub run_dispatch : AccountId → Call → Exec DispatchError State DispatchOutcome
    run_dispatch origin call env =
        let (outcome, env') = f.dispatch f.filter origin call env in (ok outcome, env')

    -- What follows the charge for the call.
    unfoldable pub dispatch_charged : Call → e.ChargedAmount → Exec DispatchError State RetVal
    unfolding run_dispatch finish
    dispatch_charged call charged = do
      origin ← gets address
      outcome ← run_dispatch origin call
      modify (adjust_weight charged (f.extract_actual_weight outcome (f.dispatch_weight call)))
      finish outcome.result

    -- `DispatchCall::execute`
    unfoldable pub dispatch_call : Exec DispatchError State RetVal
    dispatch_call = do
      output ← decode e f.decoder
      let call = f.into output
      charged ← charge_weight (f.dispatch_weight call)
      dispatch_charged call charged

    unfoldable pub dispatch_function : Function
    dispatch_function = record { matches = f.matcher; execute = dispatch_call }

  module _ {Output Read ReadResult : Type 0} (f : ReadState Output Read ReadResult) where
    -- What follows the conversion of the result.
    unfoldable pub return_bytes : List ℕ → Exec DispatchError State RetVal
    return_bytes bytes = do
      charge_weight (f.seal_input (length bytes))
      write bytes Bool.false none
      pure (converging 0)

    -- What follows the charge for the read.
    unfoldable pub read_charged : Read → Exec DispatchError State RetVal
    read_charged read = do
      ensure (f.filter read) f.call_filtered
      result ← gets (f.read read)
      bytes ← (λ env. lift (f.try_convert result env) env)
      return_bytes bytes

    -- `ReadState::execute`
    unfoldable pub read_state : Exec DispatchError State RetVal
    read_state = do
      output ← decode e f.decoder
      let read = f.into output
      charge_weight (f.weight read)
      read_charged read

    unfoldable pub read_function : Function
    read_function = record { matches = f.matcher; execute = read_state }

  -- `impl Function for Tuple`: the first function that matches.
  unfoldable pub execute_tuple : DispatchError → List Function → Exec DispatchError State RetVal
  execute_tuple decoding_failed [] env = (err decoding_failed, env)
  execute_tuple decoding_failed (f ∷ fs) env =
      if f.matches env then f.execute env else execute_tuple decoding_failed fs env

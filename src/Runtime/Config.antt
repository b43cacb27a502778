-- ===== src/Runtime/Config.antt =====
-- runtime/devnet/src/config/api/mod.rs: the functions of the chain extension (`Config::Functions`).
-- The testnet runtime has the same file. `Host` holds what comes from elsewhere: the codecs, FRAME's
-- dispatch, the weights of pallet-contracts and the state of pallet-assets within the environment's.
use pop_node.Prelude.{ℕ, Bool, List, [], ◌∷◌, Option, map_ok, Exec}
use pop_node.Frame.{AccountId, Weight, DispatchError, RetVal, DispatchOutcome}
use pop_node.Extension
use pop_node.Extension.Environment.{Environment}
use pop_node.Extension.Functions.{
  DispatchCall, ReadState, Function, dispatch_function, read_function,
}
use pop_node.Api.Codec.{Reader, Scale}
use pop_node.Api.Extension.{decodes_as, identified_by_first_byte, convert_error, try_convert}
use pop_node.Api.Fungibles.Types.{Assets, WeightInfo}
use pop_node.Runtime.Calls.{RuntimeCall, RuntimeRead, RuntimeResult, runtime_weight, runtime_read}
use pop_node.Runtime.Versioning.{
  VersionedRuntimeCall, VersionedRuntimeRead, into_call, into_read, decode_versioned_call,
  decode_versioned_read, result_bytes, status_code, contracts_decoding_failed, try_from_result,
  try_from_error,
}
use pop_node.Runtime.Filter.{contains_call, contains_read}
use mathlib.Core.Option

pub record Host (e : Environment) (Other : Type 0) : Type 1 where
  pub scale : Scale
  pub others : ℕ → Reader (RuntimeCall Other)
  pub seal_return : ℕ → Weight
  pub seal_input : ℕ → Weight
  pub seal_debug_message : ℕ → Weight
  pub dispatch_weight : RuntimeCall Other → Weight
  pub dispatch :
      (RuntimeCall Other → Bool)
      → AccountId
      → RuntimeCall Other
      → e.State
      → DispatchOutcome × e.State
  pub extract_actual_weight : DispatchOutcome → Weight → Weight
  pub assets : Assets
  pub assets_in : e.State → assets.State
  pub weights : WeightInfo
  pub call_filtered : DispatchError

-- The value that a decoder reads, whatever is left of the input.
abbrev pub value : {A : Type 0} → Reader A → List ℕ → Option A
value m bytes = Option.map (λ r. r.0) (m bytes)

module _ (e : Environment) {Other : Type 0} (h : Host e Other) where
  -- Function 0: dispatching calls.
  unfoldable pub dispatching : DispatchCall e (VersionedRuntimeCall Other) (RuntimeCall Other)
  unfolding contains_call try_from_error status_code into_call decode_versioned_call
  dispatching = record {
    matcher = identified_by_first_byte e 0;
    decoder =
        decodes_as e (value (decode_versioned_call h.scale h.others)) h.seal_return
          contracts_decoding_failed;
    into = into_call;
    filter = contains_call;
    convert = convert_error e try_from_error status_code;
    dispatch_weight = h.dispatch_weight;
    dispatch = h.dispatch;
    extract_actual_weight = h.extract_actual_weight;
  }

  -- Function 1: reading state.
  unfoldable pub reading : ReadState e VersionedRuntimeRead RuntimeRead RuntimeResult
  reading = record {
    matcher = identified_by_first_byte e 1;
    decoder =
        decodes_as e (value (decode_versioned_read h.scale)) h.seal_return
          contracts_decoding_failed;
    into = into_read;
    weight = runtime_weight h.weights;
    filter = contains_read;
    call_filtered = h.call_filtered;
    read = λ key env. runtime_read h.assets key (h.assets_in env);
    try_convert =
        λ result env. map_ok (result_bytes h.scale) (try_convert e try_from_result result env);
    seal_input = h.seal_input;
  }

  -- `Functions`
  unfoldable pub functions : List (Function e)
  unfolding dispatching reading
  functions = dispatch_function e dispatching ∷ read_function e reading ∷ []

  -- The chain extension of the runtime.
  unfoldable pub call_api : Exec DispatchError e.State RetVal
  unfolding functions
  call_api = Extension.call e h.seal_debug_message contracts_decoding_failed functions

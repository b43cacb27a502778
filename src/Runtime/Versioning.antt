-- ===== src/Runtime/Versioning.antt =====
-- runtime/devnet/src/config/api/versioning.rs
use pop_node.Prelude.{ℕ, ◌==◌, ◌&&◌, if◌then◌else◌, Bool, some, List, Result, ok, err}
use pop_node.Prelude.Bytes.{Bytes4}
use pop_node.Primitives.{Error, TokenError, ArithmeticError, TransactionalError, to_u32}
use pop_node.Frame
use pop_node.Frame.{DispatchError}
use pop_node.Api.Codec.{Reader, pure, ◌>>=◌, Scale}
use pop_node.Api.Fungibles.Codec.{index, invalid}
use pop_node.Runtime.Calls.{
  RuntimeCall, RuntimeRead, RuntimeResult, decode_runtime_call, decode_runtime_read, encode_result,
}

-- `VersionedRuntimeCall`
pub data VersionedRuntimeCall (Other : Type 0) : Type 0 where
  v0 : RuntimeCall Other → VersionedRuntimeCall Other

-- `From<VersionedRuntimeCall> for RuntimeCall`
unfoldable pub into_call : {Other : Type 0} → VersionedRuntimeCall Other → RuntimeCall Other
into_call (v0 call) = call

-- `VersionedRuntimeRead`
pub data VersionedRuntimeRead : Type 0 where
  v0 : RuntimeRead → VersionedRuntimeRead

-- `From<VersionedRuntimeRead> for RuntimeRead`
unfoldable pub into_read : VersionedRuntimeRead → RuntimeRead
into_read (VersionedRuntimeRead.v0 read) = read

-- `VersionedRuntimeResult`
pub data VersionedRuntimeResult : Type 0 where
  v0 : RuntimeResult → VersionedRuntimeResult

-- `VersionedError`
pub data VersionedError : Type 0 where
  v0 : Error → VersionedError

-- The decoders of the versioned types: the version byte, then the value.
unfoldable pub decode_versioned_call :
    {Other : Type 0}
    → Scale
    → (ℕ → Reader (RuntimeCall Other))
    → Reader (VersionedRuntimeCall Other)
decode_versioned_call c others = do
  version ← index
  if version == 0
      then (do call ← decode_runtime_call c others; pure (VersionedRuntimeCall.v0 call))
      else invalid

unfoldable pub decode_versioned_read : Scale → Reader VersionedRuntimeRead
decode_versioned_read c = do
  version ← index
  if version == 0
      then (do read ← decode_runtime_read c; pure (VersionedRuntimeRead.v0 read))
      else invalid

-- `From<VersionedRuntimeResult> for Vec<u8>`
unfoldable pub result_bytes : Scale → VersionedRuntimeResult → List ℕ
result_bytes c (VersionedRuntimeResult.v0 result) = encode_result c result

-- `From<VersionedError> for u32`
unfoldable pub status_code : VersionedError → ℕ
status_code (VersionedError.v0 error) = to_u32 error

-- `DECODING_FAILED_ERROR` of pallets/api/src/extension.rs
abbrev pub decoding_failed_error : Bytes4
decoding_failed_error = record { byte0 = 11; byte1 = 0; byte2 = 0; byte3 = 0 }

abbrev pub bytes_equal : Bytes4 → Bytes4 → Bool
bytes_equal a b =
    a.byte0 == b.byte0 && a.byte1 == b.byte1 && a.byte2 == b.byte2 && a.byte3 == b.byte3

-- The index of pallet-contracts in the runtime.
abbrev pub contracts_index : ℕ
contracts_index = 40

-- The errors within `Token`, `Arithmetic` and `Transactional` of `From<DispatchError> for V0Error`.
unfoldable pub v0_token : Frame.TokenError → TokenError
v0_token Frame.TokenError.funds_unavailable = TokenError.funds_unavailable
v0_token Frame.TokenError.only_provider = TokenError.only_provider
v0_token Frame.TokenError.below_minimum = TokenError.below_minimum
v0_token Frame.TokenError.cannot_create = TokenError.cannot_create
v0_token Frame.TokenError.unknown_asset = TokenError.unknown_asset
v0_token Frame.TokenError.frozen = TokenError.frozen
v0_token Frame.TokenError.unsupported = TokenError.unsupported
v0_token Frame.TokenError.cannot_create_hold = TokenError.cannot_create_hold
v0_token Frame.TokenError.not_expendable = TokenError.not_expendable
v0_token Frame.TokenError.blocked = TokenError.blocked

unfoldable pub v0_arithmetic : Frame.ArithmeticError → ArithmeticError
v0_arithmetic Frame.ArithmeticError.underflow = ArithmeticError.underflow
v0_arithmetic Frame.ArithmeticError.overflow = ArithmeticError.overflow
v0_arithmetic Frame.ArithmeticError.division_by_zero = ArithmeticError.division_by_zero

unfoldable pub v0_transactional : Frame.TransactionalError → TransactionalError
v0_transactional Frame.TransactionalError.limit_reached = TransactionalError.limit_reached
v0_transactional Frame.TransactionalError.no_layer = TransactionalError.no_layer

-- `From<DispatchError> for V0Error`
unfoldable pub v0_error : DispatchError → Error
unfolding v0_token v0_arithmetic v0_transactional
v0_error (DispatchError.other message) = Error.other
v0_error DispatchError.cannot_lookup = Error.cannot_lookup
v0_error DispatchError.bad_origin = Error.bad_origin
v0_error (DispatchError.module_error index error message) =
    if index == contracts_index && bytes_equal error decoding_failed_error
    then Error.decoding_failed
    else Error.module_error index error.byte0 error.byte1
v0_error DispatchError.consumer_remaining = Error.consumer_remaining
v0_error DispatchError.no_providers = Error.no_providers
v0_error DispatchError.too_many_consumers = Error.too_many_consumers
v0_error (DispatchError.token error) = Error.token (v0_token error)
v0_error (DispatchError.arithmetic error) = Error.arithmetic (v0_arithmetic error)
v0_error (DispatchError.transactional error) = Error.transactional (v0_transactional error)
v0_error DispatchError.exhausted = Error.exhausted
v0_error DispatchError.corruption = Error.corruption
v0_error DispatchError.unavailable = Error.unavailable
v0_error DispatchError.root_not_allowed = Error.root_not_allowed

-- `pallet_contracts::Error::<Runtime>::DecodingFailed.into()`, given FRAME's message
abbrev pub contracts_decoding_failed : DispatchError
contracts_decoding_failed =
    DispatchError.module_error contracts_index decoding_failed_error (some "DecodingFailed")

-- `TryFrom<(RuntimeResult, Version)> for VersionedRuntimeResult`
unfoldable pub try_from_result : RuntimeResult → ℕ → Result DispatchError VersionedRuntimeResult
try_from_result result version =
    if version == 0 then ok (VersionedRuntimeResult.v0 result) else err contracts_decoding_failed

-- `TryFrom<(DispatchError, Version)> for VersionedError`
unfoldable pub try_from_error : DispatchError → ℕ → Result DispatchError VersionedError
unfolding v0_error
try_from_error error version =
    if version == 0 then ok (VersionedError.v0 (v0_error error)) else err contracts_decoding_failed

-- ===== src/PopApi.antt =====
-- pop-api/src/lib.rs and pop-api/src/v0/mod.rs: the status code that a contract gets, and the method
-- identifiers of the chain extension. A `StatusCode` is the `u32` that it wraps.
pub mod Ink
pub mod Indices
pub mod Fungibles
pub mod Events
pub mod Errors
pub mod Fields
pub mod Receiving
pub mod Requests
pub mod Queries
use pop_node.Prelude.{ℕ, ◌==◌, if◌then◌else◌, Result, ok, err, List, Option, none, some}
use pop_node.Prelude.Bytes.{from_le_bytes}
use pop_node.Primitives.{Error, from_u32}
use pop_node.Api.Codec.{Reader}

abbrev pub StatusCode : Type 0
StatusCode = ℕ

abbrev pub decoding_failed : ℕ
decoding_failed = 255

abbrev pub module_error : ℕ
module_error = 3

abbrev pub dispatch : ℕ
dispatch = 0

abbrev pub read_state : ℕ
read_state = 1

abbrev pub assets : ℕ
assets = 52

abbrev pub balances : ℕ
balances = 10

abbrev pub fungibles : ℕ
fungibles = 150

-- `StatusCode::from_status_code`
unfoldable pub from_status_code : ℕ → Result StatusCode (Unit {0})
from_status_code status_code = if status_code == 0 then ok tt else err status_code

-- `From<ink::scale::Error> for StatusCode`, on what a decoder returns
unfoldable pub decode_output : {A : Type 0} → Reader A → List ℕ → Result StatusCode A
decode_output output bytes = elim (output bytes) [
  | none ↦ err decoding_failed
  | some (a, rest) ↦ ok a
]

-- `From<StatusCode> for Error`
unfoldable pub into_error : StatusCode → Error
into_error value = from_u32 value

-- `build_extension_method`
unfoldable pub build_extension_method : ℕ → ℕ → ℕ → ℕ → ℕ
build_extension_method function version pallet dispatchable =
    from_le_bytes function version pallet dispatchable

abbrev pub version0 : ℕ
version0 = 0

-- `v0::build_dispatch`
unfoldable pub build_dispatch : ℕ → ℕ → ℕ
unfolding build_extension_method
build_dispatch pallet dispatchable = build_extension_method dispatch version0 pallet dispatchable

-- `v0::build_read_state`
unfoldable pub build_read_state : ℕ → ℕ → ℕ
unfolding build_extension_method
build_read_state pallet state_query = build_extension_method read_state version0 pallet state_query

-- ===== src/Primitives.antt =====
-- primitives/src/lib.rs: the versioned `Error` of the Pop API and its status code.
-- `Error` derives the SCALE codec: a variant is its index byte (the explicit discriminant), then
-- its fields in order; a decoder reads a prefix of its input. Bytes are numbers below 256.
pub mod StatusCode
use pop_node.Prelude.{ℕ, ◌<◌, List, [], ◌∷◌, Option, none, some, ◌==◌, if◌then◌else◌}
use pop_node.Prelude.Bytes.{Bytes4, to_le_bytes, from_le_bytes, slice}
use mathlib.Core.Option

pub data TokenError : Type 0 where
  funds_unavailable only_provider below_minimum cannot_create unknown_asset : TokenError
  frozen unsupported cannot_create_hold not_expendable blocked : TokenError

pub data ArithmeticError : Type 0 where
  underflow overflow division_by_zero : ArithmeticError

pub data TransactionalError : Type 0 where
  limit_reached no_layer : TransactionalError

-- `module_error index e0 e1` is `Module { index, error: [e0, e1] }`.
pub data Error : Type 0 where
  other cannot_lookup bad_origin : Error
  module_error : ℕ → ℕ → ℕ → Error
  consumer_remaining no_providers too_many_consumers : Error
  token : TokenError → Error
  arithmetic : ArithmeticError → Error
  transactional : TransactionalError → Error
  exhausted corruption unavailable root_not_allowed decoding_failed : Error
  unknown : ℕ → ℕ → ℕ → Error

unfoldable pub token_index : TokenError → ℕ
token_index funds_unavailable = 0
token_index only_provider = 1
token_index below_minimum = 2
token_index cannot_create = 3
token_index unknown_asset = 4
token_index frozen = 5
token_index unsupported = 6
token_index cannot_create_hold = 7
token_index not_expendable = 8
token_index blocked = 9

unfoldable pub arithmetic_index : ArithmeticError → ℕ
arithmetic_index underflow = 0
arithmetic_index overflow = 1
arithmetic_index division_by_zero = 2

unfoldable pub transactional_index : TransactionalError → ℕ
transactional_index limit_reached = 0
transactional_index no_layer = 1

-- `Error::encode`
unfoldable pub encode : Error → List ℕ
unfolding token_index arithmetic_index transactional_index
encode other = 0 ∷ []
encode cannot_lookup = 1 ∷ []
encode bad_origin = 2 ∷ []
encode (module_error index e0 e1) = 3 ∷ index ∷ e0 ∷ e1 ∷ []
encode consumer_remaining = 4 ∷ []
encode no_providers = 5 ∷ []
encode too_many_consumers = 6 ∷ []
encode (token e) = 7 ∷ token_index e ∷ []
encode (arithmetic e) = 8 ∷ arithmetic_index e ∷ []
encode (transactional e) = 9 ∷ transactional_index e ∷ []
encode exhausted = 10 ∷ []
encode corruption = 11 ∷ []
encode unavailable = 12 ∷ []
encode root_not_allowed = 13 ∷ []
encode decoding_failed = 254 ∷ []
encode (unknown dispatch_error_index error_index error) =
    255 ∷ dispatch_error_index ∷ error_index ∷ error ∷ []

unfoldable pub decode_token : List ℕ → Option TokenError
decode_token [] = none
decode_token (b ∷ _) =
    if b == 0
    then some funds_unavailable
    else if b == 1
    then some only_provider
    else if b == 2
    then some below_minimum
    else if b == 3
    then some cannot_create
    else if b == 4
    then some unknown_asset
    else if b == 5
    then some frozen
    else if b == 6
    then some unsupported
    else if b == 7
    then some cannot_create_hold
    else if b == 8
    then some not_expendable
    else if b == 9
    then some blocked
    else none

unfoldable pub decode_arithmetic : List ℕ → Option ArithmeticError
decode_arithmetic [] = none
decode_arithmetic (b ∷ _) =
    if b == 0
    then some underflow
    else if b == 1
    then some overflow
    else if b == 2
    then some division_by_zero
    else none

unfoldable pub decode_transactional : List ℕ → Option TransactionalError
decode_transactional [] = none
decode_transactional (b ∷ _) =
    if b == 0 then some limit_reached else if b == 1 then some no_layer else none

unfoldable pub decode_bytes3 : (ℕ → ℕ → ℕ → Error) → List ℕ → Option Error
decode_bytes3 make (a ∷ b ∷ c ∷ _) = some (make a b c)
decode_bytes3 make _ = none

-- `Error::decode`; `none` is a SCALE error.
unfoldable pub decode : List ℕ → Option Error
unfolding decode_token decode_arithmetic decode_transactional decode_bytes3
decode [] = none
decode (b ∷ rest) =
    if b == 0
    then some other
    else if b == 1
    then some cannot_lookup
    else if b == 2
    then some bad_origin
    else if b == 3
    then decode_bytes3 module_error rest
    else if b == 4
    then some consumer_remaining
    else if b == 5
    then some no_providers
    else if b == 6
    then some too_many_consumers
    else if b == 7
    then Option.map token (decode_token rest)
    else if b == 8
    then Option.map arithmetic (decode_arithmetic rest)
    else if b == 9
    then Option.map transactional (decode_transactional rest)
    else if b == 10
    then some exhausted
    else if b == 11
    then some corruption
    else if b == 12
    then some unavailable
    else if b == 13
    then some root_not_allowed
    else if b == 254
    then some decoding_failed
    else if b == 255
    then decode_bytes3 unknown rest
    else none

-- `encoded_error.resize(4, 0)`, as an array of four bytes
unfoldable pub resize4 : List ℕ → Bytes4
resize4 [] = record { byte0 = 0; byte1 = 0; byte2 = 0; byte3 = 0 }
resize4 (a ∷ []) = record { byte0 = a; byte1 = 0; byte2 = 0; byte3 = 0 }
resize4 (a ∷ b ∷ []) = record { byte0 = a; byte1 = b; byte2 = 0; byte3 = 0 }
resize4 (a ∷ b ∷ c ∷ []) = record { byte0 = a; byte1 = b; byte2 = c; byte3 = 0 }
resize4 (a ∷ b ∷ c ∷ d ∷ _) = record { byte0 = a; byte1 = b; byte2 = c; byte3 = d }

-- `impl From<Error> for u32`
unfoldable pub to_u32 : Error → ℕ
to_u32 e = let b = resize4 (encode e) in from_le_bytes b.byte0 b.byte1 b.byte2 b.byte3

abbrev pub unwrap_error : Option Error → Error
unwrap_error none = decoding_failed
unwrap_error (some e) = e

-- `impl From<u32> for Error`
unfoldable pub from_u32 : ℕ → Error
from_u32 value = unwrap_error (decode (slice (to_le_bytes value)))

-- The `u8` fields of an error are bytes.
abbrev pub HasBytes : Error → Type 0
HasBytes (module_error i a b) = (i < 256) × (a < 256) × (b < 256)
HasBytes (unknown i a b) = (i < 256) × (a < 256) × (b < 256)
HasBytes _ = Unit {0}

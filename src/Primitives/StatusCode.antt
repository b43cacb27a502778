-- ===== src/Primitives/StatusCode.antt =====
-- The status code of an `Error`, and the `Error` read back from a status code.
use pop_node.Prelude.{ℕ, ◌%◌, ◌≤◌, ◌<◌, ◌≡◌, refl, ap, ◌∙◌, ◌↔◌, some, arith}
use pop_node.Prelude.Bytes.{Bytes4, to_le_bytes, from_le_bytes, slice, to_le_bytes-from_le_bytes}
use pop_node.Primitives.{
  Error, TokenError, ArithmeticError, TransactionalError, encode, decode, resize4, to_u32, from_u32,
  unwrap_error, HasBytes, token_index, arithmetic_index, transactional_index,
}

abbrev IsBytes : Bytes4 → Type 0
IsBytes b = (b.byte0 < 256) × (b.byte1 < 256) × (b.byte2 < 256) × (b.byte3 < 256)

token_index-lt : (e : TokenError) → token_index e < 256
unfolding token_index
token_index-lt TokenError.funds_unavailable = omega arith
token_index-lt _ = omega arith

arithmetic_index-lt : (e : ArithmeticError) → arithmetic_index e < 256
unfolding arithmetic_index
arithmetic_index-lt ArithmeticError.underflow = omega arith
arithmetic_index-lt _ = omega arith

transactional_index-lt : (e : TransactionalError) → transactional_index e < 256
unfolding transactional_index
transactional_index-lt TransactionalError.limit_reached = omega arith
transactional_index-lt _ = omega arith

encode-IsBytes : (e : Error) → HasBytes e → IsBytes (resize4 (encode e))
unfolding encode resize4
encode-IsBytes (Error.module_error i a b) h = omega arith
encode-IsBytes (Error.unknown i a b) h = omega arith
encode-IsBytes (Error.token e) h = omega (arith, token_index-lt e)
encode-IsBytes (Error.arithmetic e) h = omega (arith, arithmetic_index-lt e)
encode-IsBytes (Error.transactional e) h = omega (arith, transactional_index-lt e)
encode-IsBytes _ h = omega arith

decode-resize4 : (e : Error) → decode (slice (resize4 (encode e))) ≡ some e
unfolding encode decode resize4
decode-resize4 (Error.token TokenError.funds_unavailable) = refl
decode-resize4 (Error.token _) = refl
decode-resize4 (Error.arithmetic ArithmeticError.underflow) = refl
decode-resize4 (Error.arithmetic _) = refl
decode-resize4 (Error.transactional TransactionalError.limit_reached) = refl
decode-resize4 (Error.transactional _) = refl
decode-resize4 _ = refl

le_bytes_of_bytes :
    (b : Bytes4) → IsBytes b → to_le_bytes (from_le_bytes b.byte0 b.byte1 b.byte2 b.byte3) ≡ b
le_bytes_of_bytes b h = to_le_bytes-from_le_bytes b.byte0 b.byte1 b.byte2 b.byte3 h.0 h.1 h.2 h.3

-- Reading a status code back gives the error that it was made from, for every error whose `u8`
-- fields are bytes.
pub from_u32-to_u32 : (e : Error) → HasBytes e → from_u32 (to_u32 e) ≡ e
unfolding from_u32 to_u32
from_u32-to_u32 e h =
    ap (λ b. unwrap_error (decode (slice b)))
      (le_bytes_of_bytes (resize4 (encode e)) (encode-IsBytes e h))
    ∙ ap unwrap_error (decode-resize4 e)

-- Of the errors whose `u8` fields are bytes, exactly `Other` has the status code 0.
pub to_u32-zero_iff : (e : Error) → HasBytes e → (to_u32 e ≡ 0) ↔ (e ≡ Error.other)
unfolding to_u32 encode resize4
to_u32-zero_iff Error.other h = (λ _. refl, λ _. refl)
to_u32-zero_iff _ h = (λ z. absurd (omega arith), λ p. cc)

from_u32_unmapped : (n : ℕ) → 14 ≤ n % 256 → n % 256 < 254 → from_u32 n ≡ Error.decoding_failed
unfolding from_u32 decode
from_u32_unmapped n lo hi = ground arith

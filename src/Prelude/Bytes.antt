-- ===== src/Prelude/Bytes.antt =====
-- Machine words as native numbers, and their little-endian bytes.
use Prim.Native.Nat.{ℕ, ◌+◌, ◌*◌, ◌/◌, ◌%◌, ◌^◌, ◌<◌}
use mathlib.Core.Path.{◌≡◌}
use mathlib.Core.List.{List, [], ◌∷◌}
use native.Mathlib.Omega.{arith}

-- `[u8; 4]`
pub record Bytes4 : Type 0 where
  pub byte0 : ℕ
  pub byte1 : ℕ
  pub byte2 : ℕ
  pub byte3 : ℕ

-- `u32::to_le_bytes` and `u32::from_le_bytes`
abbrev pub to_le_bytes : ℕ → Bytes4
to_le_bytes n = record {
  byte0 = n % 256;
  byte1 = n / 256 % 256;
  byte2 = n / 65536 % 256;
  byte3 = n / 16777216 % 256;
}

abbrev pub from_le_bytes : ℕ → ℕ → ℕ → ℕ → ℕ
from_le_bytes a b c d = a + 256 * b + 65536 * c + 16777216 * d

-- The bytes of a `u16`.
abbrev pub low_byte : ℕ → ℕ
low_byte n = n % 256

abbrev pub high_byte : ℕ → ℕ
high_byte n = n / 256 % 256

abbrev pub slice : Bytes4 → List ℕ
slice b = b.byte0 ∷ b.byte1 ∷ b.byte2 ∷ b.byte3 ∷ []

pub to_le_bytes-from_le_bytes :
    (a b c d : ℕ)
    → a < 256
    → b < 256
    → c < 256
    → d < 256
    → to_le_bytes (from_le_bytes a b c d) ≡ record { byte0 = a; byte1 = b; byte2 = c; byte3 = d }
to_le_bytes-from_le_bytes a b c d ha hb hc hd = ground arith

pub from_le_bytes-lt :
    (a b c d : ℕ) → a < 256 → b < 256 → c < 256 → d < 256 → from_le_bytes a b c d < 2 ^ 32
from_le_bytes-lt a b c d ha hb hc hd = omega arith

-- ===== src/Prelude/Utf8.antt =====
-- `String::from_utf8(v).ok()`: the bytes, if they are well-formed UTF-8.
use Prim.Native.Nat.{ℕ, zero, suc}
use mathlib.Core.Bool.{Bool, false, ◌&&◌}
use mathlib.Core.List.{List, [], ◌∷◌}
use mathlib.Core.Option.{Option, none, some}
use pop_node.Prelude.Tests.{leb, ◌==◌, if◌then◌else◌}

-- How many continuation bytes follow, and the bounds of the next one.
pub record Expected : Type 0 where
  pub count : ℕ
  pub low : ℕ
  pub high : ℕ

abbrev between : ℕ → ℕ → ℕ → Bool
between low high b = leb low b && leb b high

-- What the first byte of a character announces.
unfoldable pub first_byte : ℕ → Option Expected
first_byte b =
    if leb b 127
    then some (record { count = 0; low = 128; high = 191 })
    else if between 194 223 b
    then some (record { count = 1; low = 128; high = 191 })
    else if b == 224
    then some (record { count = 2; low = 160; high = 191 })
    else if b == 237
    then some (record { count = 2; low = 128; high = 159 })
    else if between 225 239 b
    then some (record { count = 2; low = 128; high = 191 })
    else if b == 240
    then some (record { count = 3; low = 144; high = 191 })
    else if b == 244
    then some (record { count = 3; low = 128; high = 143 })
    else if between 241 243 b
    then some (record { count = 3; low = 128; high = 191 })
    else none

unfoldable pub next_byte : Expected → ℕ → Option Expected
unfolding first_byte
next_byte e b = elim e.count [
  | zero ↦ first_byte b
  | suc count ↦
      if between e.low e.high b
      then some (record { count = count; low = 128; high = 191 })
      else none
]

-- `is_utf8 state bytes`: whether the bytes go on from a state, which is `none` once they are not
-- well-formed.
unfoldable pub is_utf8 : Option Expected → List ℕ → Bool
unfolding next_byte
is_utf8 none bytes = false
is_utf8 (some e) [] = e.count == 0
is_utf8 (some e) (b ∷ bytes) = is_utf8 (next_byte e b) bytes

unfoldable pub from_utf8 : List ℕ → Option (List ℕ)
unfolding is_utf8
from_utf8 bytes =
    if is_utf8 (some (record { count = 0; low = 128; high = 191 })) bytes then some bytes else none

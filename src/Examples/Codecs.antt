-- ===== src/Examples/Codecs.antt =====
-- Codecs of `u32`, of a byte, of a Boolean, of byte strings shorter than 64 and of `Option`.
use pop_node.Prelude.{
  ℕ, ◌+◌, ◌*◌, ◌/◌, ◌<◌, ◌^◌, ◌≡◌, refl, arith, List, [], ◌∷◌, ◌++◌, Option, none, some, Bool, true,
  false, ◌==◌, leb, if◌then◌else◌, length, take, drop, length-append, take-append, drop-append,
}
use pop_node.Prelude.Bytes.{to_le_bytes, from_le_bytes, slice}
use pop_node.Api.Codec.{Codec, Scale, Reader}

unfoldable pub read_u32 : Reader ℕ
read_u32 (a ∷ b ∷ c ∷ d ∷ rest) = some (from_le_bytes a b c d, rest)
read_u32 _ = none

pub read_u32-slice :
    (n : ℕ) (rest : List ℕ) → n < 2 ^ 32 → read_u32 (slice (to_le_bytes n) ++ rest) ≡ some (n, rest)
unfolding read_u32
read_u32-slice n rest h = ground arith

unfoldable pub read_byte : Reader ℕ
read_byte [] = none
read_byte (b ∷ rest) = some (b, rest)

pub read_byte-cons : (n : ℕ) (rest : List ℕ) → read_byte (n ∷ rest) ≡ some (n, rest)
unfolding read_byte
read_byte-cons n rest = refl

unfoldable pub read_boolean : Reader Bool
read_boolean [] = none
read_boolean (b ∷ rest) =
    if b == 0 then some (false, rest) else if b == 1 then some (true, rest) else none

abbrev pub boolean_byte : Bool → List ℕ
boolean_byte true = 1 ∷ []
boolean_byte false = 0 ∷ []

unfoldable pub read_bytes : Reader (List ℕ)
read_bytes [] = none
read_bytes (n ∷ rest) =
    if leb (n / 4) (length rest) then some (take (n / 4) rest, drop (n / 4) rest) else none

abbrev pub short_bytes : List ℕ → List ℕ
short_bytes xs = 4 * length xs ∷ xs

leb_add : (a b : ℕ) → leb a (a + b) ≡ true
leb_add a b = ground arith

pub read_bytes-short_bytes :
    (xs rest : List ℕ) → read_bytes (short_bytes xs ++ rest) ≡ some (xs, rest)
unfolding read_bytes
read_bytes-short_bytes xs rest =
    let quarter : 4 * length xs / 4 ≡ length xs = omega arith in
    rw
      (
        quarter,
        length-append xs rest,
        leb_add (length xs) (length rest),
        take-append xs rest,
        drop-append xs rest,
      )
      refl

unfoldable pub read_optional : Reader (Option (List ℕ))
unfolding read_bytes
read_optional [] = none
read_optional (b ∷ rest) =
    if b == 0
    then some (none, rest)
    else elim (read_bytes rest) [ none ↦ none | some (xs, more) ↦ some (some xs, more) ]

abbrev pub optional_bytes : Option (List ℕ) → List ℕ
optional_bytes none = 0 ∷ []
optional_bytes (some xs) = 1 ∷ short_bytes xs

pub read_optional-optional_bytes :
    (o : Option (List ℕ)) (rest : List ℕ)
    → read_optional (optional_bytes o ++ rest) ≡ some (o, rest)
unfolding read_optional
read_optional-optional_bytes none rest = refl
read_optional-optional_bytes (some xs) rest =
    rw (read_bytes-short_bytes xs rest, read_optional) refl

pub read_boolean-boolean_byte :
    (b : Bool) (rest : List ℕ) → read_boolean (boolean_byte b ++ rest) ≡ some (b, rest)
unfolding read_boolean
read_boolean-boolean_byte true rest = refl
read_boolean-boolean_byte false rest = refl

abbrev pub u32 : Codec ℕ
u32 = record {
  InRange = λ n. n < 2 ^ 32;
  encode = λ n. slice (to_le_bytes n);
  decode = read_u32;
  decode-encode = read_u32-slice;
}

abbrev pub codecs : Scale
codecs = record {
  token = u32;
  account = u32;
  balance = u32;
  byte = record {
    InRange = λ n. n < 256;
    encode = λ n. n ∷ [];
    decode = read_byte;
    decode-encode = λ n rest h. read_byte-cons n rest;
  };
  bytes = record {
    InRange = λ xs. length xs < 64;
    encode = short_bytes;
    decode = read_bytes;
    decode-encode = λ xs rest h. read_bytes-short_bytes xs rest;
  };
  boolean = record {
    InRange = λ b. Unit {0};
    encode = boolean_byte;
    decode = read_boolean;
    decode-encode = λ b rest h. read_boolean-boolean_byte b rest;
  };
  optional_bytes = record {
    InRange = λ o. Unit {0};
    encode = optional_bytes;
    decode = read_optional;
    decode-encode = λ o rest h. read_optional-optional_bytes o rest;
  };
}

-- ===== src/Prelude/Decimal.antt =====
-- `u32::to_string` and `str::parse::<u32>`, on the bytes of the string.
use Prim.Native.Nat.{ℕ, zero, suc, ◌+◌, ◌-◌, ◌*◌, ◌/◌, ◌%◌, ◌≤◌, ◌<◌, ◌^◌}
use mathlib.Core.Path.{◌≡◌, refl, ap, sym, ◌∙◌}
use mathlib.Core.Logic.{inl, inr}
use mathlib.Core.Bool.{◌&&◌}
use mathlib.Core.List.{List, [], ◌∷◌, ◌++◌}
use mathlib.Core.Option.{Option, none, some}
use native.Mathlib.Omega.{arith}
use pop_node.Prelude.Lists.{is_empty}
use pop_node.Prelude.Tests.{ltb, leb, ◌==◌, if◌then◌else◌, Bool-cases}

-- The digits of a number, at most `fuel` of them in front of the last.
unfoldable pub decimal : ℕ → ℕ → List ℕ
decimal zero n = (48 + n % 10) ∷ []
decimal (suc fuel) n =
    let front = decimal fuel (n / 10) in
    if ltb n 10 then (48 + n) ∷ [] else front ++ ((48 + n % 10) ∷ [])

-- `to_string`: a `u32` has at most ten digits.
unfoldable pub to_string : ℕ → List ℕ
unfolding decimal
to_string n = decimal 9 n

-- One more digit, as long as the value fits a `u32`.
abbrev add_digit : ℕ → ℕ → Option ℕ
add_digit value b =
    if leb 48 b && leb b 57 && ltb (10 * value + (b - 48)) (2 ^ 32)
    then some (10 * value + (b - 48))
    else none

abbrev digit_or_none : Option ℕ → ℕ → Option ℕ
digit_or_none none b = none
digit_or_none (some value) b = add_digit value b

unfoldable pub parse_digits : Option ℕ → List ℕ → Option ℕ
parse_digits value [] = value
parse_digits value (b ∷ bs) = parse_digits (digit_or_none value b) bs

-- `parse`: one digit at least, after a `+` if there is one.
unfoldable pub parse : List ℕ → Option ℕ
unfolding parse_digits
parse [] = none
parse (b ∷ bs) =
    if b == 43
    then (if is_empty bs then none else parse_digits (some 0) bs)
    else parse_digits (some 0) (b ∷ bs)

parse_digits-append :
    (value : Option ℕ) (bs : List ℕ) (b : ℕ)
    → parse_digits value (bs ++ (b ∷ [])) ≡ digit_or_none (parse_digits value bs) b
unfolding parse_digits
parse_digits-append value [] b = refl
parse_digits-append value (x ∷ bs) b = parse_digits-append (digit_or_none value x) bs b

-- The numbers with at most `fuel + 1` digits are below it.
abbrev limit : ℕ → ℕ
limit zero = 10
limit (suc fuel) = 10 * limit fuel

add_digit-eq_some : (n : ℕ) → n < 2 ^ 32 → add_digit (n / 10) (48 + n % 10) ≡ some n
add_digit-eq_some n h = ground arith

parse_digits-decimal :
    (fuel n : ℕ) → n < limit fuel → n < 2 ^ 32 → parse_digits (some 0) (decimal fuel n) ≡ some n
unfolding parse_digits decimal
parse_digits-decimal zero n l h = ground arith
parse_digits-decimal (suc fuel) n l h = elim (Bool-cases (ltb n 10)) [
  | inl p ↦ rw p (ground arith)
  | inr p ↦ rw p (
      parse_digits-append (some 0) (decimal fuel (n / 10)) (48 + n % 10)
      ∙ ap (λ v. digit_or_none v (48 + n % 10))
          (parse_digits-decimal fuel (n / 10) (omega arith) (omega arith))
      ∙ add_digit-eq_some n h)
]

StartsWithDigit : List ℕ → Type 0
StartsWithDigit bs = (b : ℕ) × (rest : List ℕ) × (bs ≡ b ∷ rest) × (48 ≤ b)

starts_append : (bs more : List ℕ) → StartsWithDigit bs → StartsWithDigit (bs ++ more)
unfolding StartsWithDigit
starts_append bs more (b, rest, p, le) = (b, rest ++ more, ap (λ x. x ++ more) p, le)

decimal-StartsWithDigit : (fuel n : ℕ) → StartsWithDigit (decimal fuel n)
unfolding StartsWithDigit decimal
decimal-StartsWithDigit zero n = (48 + n % 10, [], refl, omega arith)
decimal-StartsWithDigit (suc fuel) n = elim (Bool-cases (ltb n 10)) [
  | inl p ↦ rw p (48 + n, [], refl, omega arith)
  | inr p ↦ rw p (starts_append (decimal fuel (n / 10)) _ (decimal-StartsWithDigit fuel (n / 10)))
]

parse-digits : (b : ℕ) (bs : List ℕ) → 48 ≤ b → parse (b ∷ bs) ≡ parse_digits (some 0) (b ∷ bs)
unfolding parse
parse-digits b bs le = ground arith

pub parse-to_string : (n : ℕ) → n < 2 ^ 32 → parse (to_string n) ≡ some n
unfolding to_string StartsWithDigit
parse-to_string n h =
    let (b, rest, p, le) = decimal-StartsWithDigit 9 n in
    ap parse p
    ∙ parse-digits b rest le
    ∙ ap (parse_digits (some 0)) (sym p)
    ∙ parse_digits-decimal 9 n (omega arith) h

-- ===== src/Api/Codec.antt =====
-- The SCALE codec (parity-scale-codec) of the field types of calls and reads: a decoder takes a
-- prefix of its input, and undoes the encoder on the values of the type.
use pop_node.Prelude.{ℕ, ◌≡◌, List, [], Bool, ap, sym, ◌∙◌, append-nil, ◌++◌, Option, none, some}
use pop_node.Frame.{AccountId, TokenId, Balance}

abbrev pub Reader : Type 0 → Type 0
Reader A = List ℕ → Option (A × List ℕ)

abbrev pub pure : {A : Type 0} → A → Reader A
pure a bytes = some (a, bytes)

infixl 5 ◌>>=◌
abbrev pub ◌>>=◌ : {A B : Type 0} → Reader A → (A → Reader B) → Reader B
◌>>=◌ m f bytes = elim (m bytes) [ none ↦ none | some (a, rest) ↦ f a rest ]

pub record Codec (A : Type 0) : Type 1 where
  pub InRange : A → Type 0
  pub encode : A → List ℕ
  pub decode : Reader A
  pub decode-encode :
      (a : A) (rest : List ℕ) → InRange a → decode (encode a ++ rest) ≡ some (a, rest)

pub record Scale : Type 1 where
  pub token : Codec TokenId
  pub account : Codec AccountId
  pub balance : Codec Balance
  pub byte : Codec ℕ
  pub bytes : Codec (List ℕ)
  pub boolean : Codec Bool
  pub optional_bytes : Codec (Option (List ℕ))

-- What is left of an input that holds one value only: nothing.
pub decode-encode_only :
    {A : Type 0} (c : Codec A) (a : A) → c.InRange a → c.decode (c.encode a) ≡ some (a, [])
decode-encode_only c a h = ap c.decode (sym (append-nil (c.encode a))) ∙ c.decode-encode a [] h

-- A reader that succeeds hands its value and what is left to the next.
pub >>=-eq-some :
    {A B : Type 0} (m : Reader A) (f : A → Reader B) (bytes rest : List ℕ) (a : A)
    → m bytes ≡ some (a, rest)
    → (m >>= f) bytes ≡ f a rest
>>=-eq-some m f bytes rest a p = ap (λ r. elim r [ none ↦ none | some (x, y) ↦ f x y ]) p

-- A value of a type with a codec in front.
pub read_next :
    {A B : Type 0} (c : Codec A) (f : A → Reader B) (a : A) (rest : List ℕ)
    → c.InRange a
    → (c.decode >>= f) (c.encode a ++ rest) ≡ f a rest
read_next c f a rest h =
    >>=-eq-some c.decode f (c.encode a ++ rest) rest a (c.decode-encode a rest h)

-- A value of a type with a codec at the end.
pub read_last :
    {A B : Type 0} (c : Codec A) (f : A → Reader B) (a : A)
    → c.InRange a
    → (c.decode >>= f) (c.encode a) ≡ f a []
read_last c f a h = >>=-eq-some c.decode f (c.encode a) [] a (decode-encode_only c a h)

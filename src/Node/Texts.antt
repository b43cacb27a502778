-- ===== src/Node/Texts.antt =====
-- The functions of Rust's `str` that node/src uses, on code points.
use Prim.Native.Char.{code}
use Prim.Native.String.{String}
use pop_node.Prelude.{ℕ, Bool, true, false, ◌==◌, ◌&&◌, ◌||◌, List, [], ◌∷◌}

abbrev pub Text : Type 0
Text = List ℕ

-- A literal
abbrev pub text : String → Text
text String.[] = []
text (String.◌∷◌ c s) = code c ∷ text s

-- `==`
abbrev pub same_text : Text → Text → Bool
same_text [] [] = true
same_text [] (d ∷ t) = false
same_text (c ∷ s) [] = false
same_text (c ∷ s) (d ∷ t) = c == d && same_text s t

-- `starts_with`
abbrev pub starts_with : Text → Text → Bool
starts_with s [] = true
starts_with [] (d ∷ t) = false
starts_with (c ∷ s) (d ∷ t) = c == d && starts_with s t

-- `ends_with`
abbrev pub ends_with : Text → Text → Bool
ends_with [] t = same_text [] t
ends_with (c ∷ s) t = same_text (c ∷ s) t || ends_with s t

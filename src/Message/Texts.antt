-- ===== src/Message/Texts.antt =====
-- Texts as lists of bytes, and what the code uses of the package strings.
use anicetus.Prelude.{ℕ, ◌+◌, Bool, true, false, ◌&&◌, leb, ◌==◌, if◌then◌else◌, List, [], ◌∷◌, ◌-◌}
use Prim.Native.Char.{code}
use Prim.Native.String.{String}

abbrev pub Text : Type 0
Text = List ℕ

-- The bytes of an ASCII literal.
abbrev pub text : String → Text
text String.[] = []
text (String.◌∷◌ c s) = code c ∷ text s

abbrev pub same : Text → Text → Bool
same [] [] = true
same [] (y ∷ ys) = false
same (x ∷ xs) [] = false
same (x ∷ xs) (y ∷ ys) = x == y && same xs ys

abbrev pub is_between : ℕ → ℕ → ℕ → Bool
is_between low high c = leb low c && leb c high

abbrev pub upper : ℕ → ℕ
upper c = if is_between 97 122 c then c - 32 else c

abbrev pub lower : ℕ → ℕ
lower c = if is_between 65 90 c then c + 32 else c

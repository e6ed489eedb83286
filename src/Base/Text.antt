-- ===== src/Base/Text.antt =====
-- Texts of the program as lists of character codes. A C string is the list of its characters, with
-- no NUL among them; the NUL that ends it is not in the list.
use Prim.Native.Char.{code}
use Prim.Native.String.{String}
use Prim.Native.Nat.{ℕ}
use mathlib.Core.List.{List, [], ◌∷◌}

abbrev pub codes : String → List ℕ
codes String.[] = []
codes (String.◌∷◌ c s) = code c ∷ codes s

-- What `c` reads at the head of a C string: its first character, or the NUL.
abbrev pub first_char : List ℕ → ℕ
first_char [] = 0
first_char (c ∷ s) = c

-- ===== src/Sanitized/Escape.antt =====
-- The text that src/sanitized.c makes of a string, apart from the buffer.
use readelfobj_code.Base.{
  ℕ, ◌+◌, ◌-◌, ◌/◌, ◌%◌, ◌≤◌, ◌<◌, ◌≡◌, ◌↔◌, ◌⊎◌, inl, inr, refl, arith, true, false, ◌&&◌, List,
  [], ◌∷◌, ◌++◌, length, ltb, ◌==◌, if◌then◌else◌, All, All-append, length-append, ap, not, ◌≢◌,
  ◌*◌, ◌∙◌, Bool-cases,
}
use readelfobj_code.Sanitized.{percent_hex, hex_digit, is_printable, no_questionable_chars}
use readelfobj_code.Base.Words.{IsByte}

-- What stands for one character: itself if it is printable and no `%`, else `%` and two digits.
unfoldable pub escape_char : ℕ → List ℕ
unfolding percent_hex
escape_char c = if not (c == 0x25) && is_printable c then c ∷ [] else percent_hex c

-- The characters are taken while the text is at most `limit` long.
unfoldable pub escape_upto : ℕ → ℕ → List ℕ → List ℕ
unfolding escape_char
escape_upto limit count [] = []
escape_upto limit count (c ∷ s) =
    let rest = escape_upto limit (count + length (escape_char c)) s in
    if ltb limit count then [] else escape_char c ++ rest

unfoldable pub escape_all : List ℕ → List ℕ
unfolding escape_char
escape_all [] = []
escape_all (c ∷ s) = escape_char c ++ escape_all s

abbrev pub IsPrintable : ℕ → Type 0
IsPrintable c = (0x20 ≤ c) × (c ≤ 0x7e)

abbrev pub IsSafe : ℕ → Type 0
IsSafe c = IsPrintable c × (c ≢ 0x25) ⊎ (c ≡ 0x0a) ⊎ (c ≡ 0x09)

escape_char-IsPrintable : (c : ℕ) → All IsPrintable (escape_char c)
unfolding escape_char
escape_char-IsPrintable c = ground arith

length-escape_char : (c : ℕ) → (1 ≤ length (escape_char c)) × (length (escape_char c) ≤ 3)
unfolding escape_char
length-escape_char c = ground arith

-- All of the text is printable ASCII, whatever the string holds.
pub escape_upto-IsPrintable :
    (limit count : ℕ) (s : List ℕ) → All IsPrintable (escape_upto limit count s)
unfolding escape_upto
escape_upto-IsPrintable limit count [] = tt
escape_upto-IsPrintable limit count (c ∷ s) = elim (Bool-cases (ltb limit count)) [
  | inl e ↦ rw e tt
  | inr e ↦ rw e (
      All-append IsPrintable (escape_char c) _ (escape_char-IsPrintable c)
        (escape_upto-IsPrintable limit (count + length (escape_char c)) s))
]

-- The escaped text is the whole one where that has room.
pub escape_upto-eq_all :
    (limit count : ℕ) (s : List ℕ)
    → count + length (escape_all s) ≤ limit
    → escape_upto limit count s ≡ escape_all s
unfolding escape_upto escape_all
escape_upto-eq_all limit count [] h = refl
escape_upto-eq_all limit count (c ∷ s) h = ground (
  arith,
  length-append (escape_char c) (escape_all s),
  escape_upto-eq_all limit (count + length (escape_char c)) s,
)

-- A string is answered as it is exactly when each of its characters is printable and no `%`, or a
-- newline or a tab.
pub no_questionable_chars_iff : (s : List ℕ) → (no_questionable_chars s ≡ true) ↔ All IsSafe s
unfolding no_questionable_chars
no_questionable_chars_iff [] = (λ _. tt, λ _. refl)
no_questionable_chars_iff (c ∷ s) =
    let ih = no_questionable_chars_iff s in (λ p. ground (arith, ih.0), λ p. ground (arith, ih.1))

-- A reader of the escaped text.
hex_value : ℕ → ℕ
hex_value h = if ltb h 0x3a then h - 0x30 else h - 0x57

unfoldable pub unescape : List ℕ → List ℕ
unfolding hex_value
unescape [] = []
unescape (a ∷ []) = a ∷ []
unescape (a ∷ b ∷ []) = a ∷ b ∷ []
unescape (a ∷ b ∷ c ∷ r) = elim (a == 0x25) [
  | true ↦ (hex_value b * 16 + hex_value c) ∷ unescape r
  | false ↦ a ∷ unescape (b ∷ c ∷ r)
]

unescape_plain : (a : ℕ) (r : List ℕ) → a ≢ 0x25 → unescape (a ∷ r) ≡ a ∷ unescape r
unfolding unescape
unescape_plain a [] h = refl
unescape_plain a (b ∷ []) h = refl
unescape_plain a (b ∷ c ∷ r) h = ground arith

hex_value-hex_digit : (d : ℕ) → d < 16 → hex_value (hex_digit d) ≡ d
unfolding hex_value hex_digit
hex_value-hex_digit d h = ground arith

unescape-percent_hex :
    (c : ℕ) (r : List ℕ) → c < 256 → unescape (percent_hex c ++ r) ≡ c ∷ unescape r
unfolding unescape percent_hex
unescape-percent_hex c r h =
    ap (λ n. n ∷ unescape r)
      (omega (
        arith,
        hex_value-hex_digit (c / 16 % 16) (omega arith),
        hex_value-hex_digit (c % 16) (omega arith),
      ))

unescape-escape_char :
    (c : ℕ) (r : List ℕ) → c < 256 → unescape (escape_char c ++ r) ≡ c ∷ unescape r
unfolding escape_char
unescape-escape_char c r h = elim (Bool-cases (not (c == 0x25) && is_printable c)) [
  | inl e ↦ rw e (unescape_plain c r (ground arith))
  | inr e ↦ rw e (unescape-percent_hex c r h)
]

-- The escaped text of a string of bytes tells the string: a reader that turns each `%` with its two
-- digits back into one character gets it back.
pub unescape-escape_all : (s : List ℕ) → All IsByte s → unescape (escape_all s) ≡ s
unfolding escape_all
unescape-escape_all [] h = unfold unescape in refl
unescape-escape_all (c ∷ s) h =
    unescape-escape_char c (escape_all s) h.0 ∙ ap (◌∷◌ c) (unescape-escape_all s h.1)

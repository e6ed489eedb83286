-- ===== src/DwarfString/Scan.antt =====
-- The formats that src/dwarf_string.c reads: the part before the `%`, the number read by `strtol`,
-- and the letters behind it. A format is a C string, and what is left of it stands for the index
-- `next`.
use readelfobj_code.Base.{
  ℕ, ◌+◌, ◌-◌, ◌*◌, ◌%◌, ◌^◌, Bool, true, false, ◌||◌, ◌&&◌, List, [], ◌∷◌, ltb, leb, ◌==◌,
  if◌then◌else◌,
}
use readelfobj_code.Base.Text.{first_char}

-- The characters before the first `%`, which the scan passes over, and the rest.
unfoldable pub split_percent : List ℕ → List ℕ × List ℕ
split_percent [] = ([], [])
split_percent (c ∷ s) =
    let (before, rest) = split_percent s in if c == 0x25 then ([], c ∷ s) else (c ∷ before, rest)

-- All but the first character.
abbrev pub tail_of : List ℕ → List ℕ
tail_of [] = []
tail_of (c ∷ s) = s

-- One step over the character `c`, if it is there.
abbrev pub skip : ℕ → List ℕ → List ℕ
skip c s = if first_char s == c then tail_of s else s

abbrev pub count_if : ℕ → List ℕ → ℕ
count_if c s = if first_char s == c then 1 else 0

abbrev is_space : ℕ → Bool
is_space c = c == 0x20 || leb 0x09 c && leb c 0x0d

abbrev pub is_digit : ℕ → Bool
is_digit c = leb 0x30 c && leb c 0x39

unfoldable pub skip_spaces : List ℕ → List ℕ
skip_spaces [] = []
skip_spaces (c ∷ s) = if is_space c then skip_spaces s else c ∷ s

-- The number that the decimal digits at the front continue, and what is left behind them.
unfoldable pub read_digits : ℕ → List ℕ → ℕ × List ℕ
read_digits n [] = (n, [])
read_digits n (c ∷ s) =
    let rest = read_digits (n * 10 + (c - 0x30)) s in if is_digit c then rest else (n, c ∷ s)

-- A `long` as its 64-bit pattern, with LONG_MAX and LONG_MIN for what does not fit.
abbrev pub to_long : Bool → ℕ → ℕ
to_long true n = if ltb (2 ^ 63) n then 2 ^ 63 else (2 ^ 64 - n) % 2 ^ 64
to_long false n = if leb (2 ^ 63) n then 2 ^ 63 - 1 else n

-- `strtol(numptr,&endptr,10)` of the C library. With no digits the value is 0 and `endptr` is
-- `numptr`.
unfoldable pub strtol : List ℕ → ℕ × List ℕ
unfolding skip_spaces read_digits
strtol s =
    let t = skip_spaces s in
    let negative = first_char t == 0x2d in
    let u = if negative || first_char t == 0x2b then tail_of t else t in
    let (n, rest) = read_digits 0 u in
    if is_digit (first_char u) then (to_long negative n, rest) else (0, s)

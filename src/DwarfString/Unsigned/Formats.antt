-- ===== src/DwarfString/Unsigned/Formats.antt =====
-- What `dwarfstring_append_printf_u` of src/dwarf_string.c scans is a part of the format.
use readelfobj_code.Base.{
  ℕ, ◌+◌, ◌-◌, ◌*◌, ◌≤◌, ◌<◌, ◌^◌, ◌≡◌, inl, inr, refl, arith, some, List, [], ◌∷◌, length, ◌==◌,
  if◌then◌else◌, Bool-cases, Option-cases, ◌||◌,
}
use readelfobj_code.Base.Text.{first_char}
use readelfobj_code.DwarfString.Scan.{
  split_percent, skip, tail_of, skip_spaces, read_digits, strtol,
}
use readelfobj_code.DwarfString.Unsigned.{
  Conversion, Scanned, refused, accepted, scan_unsigned, refuse_conversion, scan_format,
}

pub length-tail_of : (s : List ℕ) → length (tail_of s) ≤ length s
length-tail_of [] = omega arith
length-tail_of (c ∷ s) = omega arith

pub length-skip : (c : ℕ) (s : List ℕ) → length (skip c s) ≤ length s
length-skip c s = let t = length-tail_of s in ground arith

length-skip_spaces : (s : List ℕ) → length (skip_spaces s) ≤ length s
unfolding skip_spaces
length-skip_spaces [] = omega arith
length-skip_spaces (c ∷ s) = let ih = length-skip_spaces s in ground arith

length-read_digits : (n : ℕ) (s : List ℕ) → length (read_digits n s).1 ≤ length s
unfolding read_digits
length-read_digits n [] = omega arith
length-read_digits n (c ∷ s) = let ih = length-read_digits (n * 10 + (c - 0x30)) s in ground arith

pub length-strtol : (s : List ℕ) → length (strtol s).1 ≤ length s
unfolding strtol
length-strtol s =
    let t = skip_spaces s in
    let a = length-skip_spaces s in
    let b = length-tail_of t in
    let u = if first_char t == 0x2d || first_char t == 0x2b then tail_of t else t in
    let c : length u ≤ length t = ground arith in let d = length-read_digits 0 u in ground arith

pub length-split_percent :
    (s : List ℕ) → (length (split_percent s).0 ≤ length s) × (length (split_percent s).1 ≤ length s)
unfolding split_percent
length-split_percent [] = (omega arith, omega arith)
length-split_percent (c ∷ s) = let ih = length-split_percent s in (ground arith, ground arith)

pub length-suffix : (s : List ℕ) → length (scan_unsigned s).suffix ≤ length s
unfolding scan_unsigned
length-suffix s =
    let a = skip 0x30 s in
    let b = (strtol a).1 in
    let c = skip 0x6c b in
    let d = skip 0x6c c in
    let e = skip 0x6c d in
    let f = skip 0x75 e in
    let g = skip 0x64 f in
    let h = skip 0x78 g in
    omega (
      arith,
      length-skip 0x30 s,
      length-strtol a,
      length-skip 0x6c b,
      length-skip 0x6c c,
      length-skip 0x6c d,
      length-skip 0x75 e,
      length-skip 0x64 f,
      length-skip 0x78 g,
      length-skip 0x58 h,
    )

-- The messages are short, and what is accepted is what was scanned.
abbrev pub IsScanned : List ℕ → Scanned → Type 0
IsScanned s (refused message) = length message < 2 ^ 62
IsScanned s (accepted c) = c ≡ scan_unsigned s

length-message :
    (c : Conversion) (message : List ℕ)
    → refuse_conversion c ≡ some message
    → length message < 2 ^ 62
unfolding refuse_conversion
length-message c message h = ground arith

pub scan_format-IsScanned : (s : List ℕ) → IsScanned s (scan_format s)
unfolding scan_format
scan_format-IsScanned s = elim (Bool-cases (first_char s == 0)) [
  | inl a ↦ rw (scan_format, a) (omega arith)
  | inr a ↦ elim (Bool-cases (first_char s == 0x20)) [
    | inl b ↦ rw (scan_format, a, b) (omega arith)
    | inr b ↦ elim (Bool-cases (first_char s == 0x2d)) [
      | inl c ↦ rw (scan_format, a, b, c) (omega arith)
      | inr c ↦ elim (Option-cases (refuse_conversion (scan_unsigned s))) [
        | inl d ↦ rw (scan_format, a, b, c, d) refl
        | inr (message, d) ↦
            rw (scan_format, a, b, c, d) (length-message (scan_unsigned s) message d)
      ]
    ]
  ]
]

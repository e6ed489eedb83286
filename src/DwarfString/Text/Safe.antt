-- ===== src/DwarfString/Text/Safe.antt =====
-- `dwarfstring_append_printf_s` of src/dwarf_string.c never leaves its blocks.
use readelfobj_code.Base.{
  ℕ, zero, suc, ◌-◌, ◌≤◌, ◌<◌, ◌^◌, inl, inr, refl, arith, Bool, true, false, not, ◌&&◌, Option,
  none, some, List, [], ◌∷◌, length, ltb, leb, ◌==◌, if◌then◌else◌, Bool-cases,
}
use readelfobj_code.Base.Text.{first_char}
use readelfobj_code.DwarfString.{Dwarfstring}
use readelfobj_code.DwarfString.Content.{Holds, IsAllocator}
use readelfobj_code.DwarfString.Padding.{append_text, append_error}
use readelfobj_code.DwarfString.Padding.Grows.{
  Grows, GrowsFalse, GrowsFalse-Grows, Grows-then, unchanged, append_text-Grows,
  append_spaces-Grows, append_error-Grows,
}
use readelfobj_code.DwarfString.Scan.{split_percent, skip, strtol}
use readelfobj_code.DwarfString.Text.{
  TextConversion, TextScanned, refused, accepted, scan_text, append_blanks, append_left,
  append_right, append_justified, append_text_conversion, append_printf_s_from,
  dwarfstring_append_printf_s,
}
use readelfobj_code.DwarfString.Unsigned.Formats.{
  length-split_percent, length-strtol, length-skip, length-tail_of,
}

-- The messages are short, and the suffix is a part of the format.
abbrev IsTextScanned : List ℕ → TextScanned → Type 0
IsTextScanned s (refused message) = length message < 2 ^ 62
IsTextScanned s (accepted c) = length c.suffix ≤ length s

scan_text-IsTextScanned : (s : List ℕ) → IsTextScanned s (scan_text s)
unfolding scan_text
scan_text-IsTextScanned s = elim (Bool-cases (first_char s == 0)) [
  | inl a ↦ rw (scan_text, a) (omega arith)
  | inr a ↦ elim (Bool-cases (first_char s == 0x20)) [
    | inl b ↦ rw (scan_text, a, b) (omega arith)
    | inr b ↦ elim (Bool-cases (not (first_char (strtol (skip 0x2d s)).1 == 0x73))) [
      | inl c ↦ rw (scan_text, a, b, c) (omega arith)
      | inr c ↦
          rw (scan_text, a, b, c)
            (omega (
              arith,
              length-tail_of (strtol (skip 0x2d s)).1,
              length-strtol (skip 0x2d s),
              length-skip 0x2d s,
            ))
    ]
  ]
]

module _ (malloc : ℕ → Option (List ℕ)) (law : IsAllocator malloc) where
  append_blanks-Grows :
      (k : ℕ) (g : Dwarfstring) (text : List ℕ)
      → Holds g text
      → Grows text (append_blanks malloc k g)
  unfolding append_blanks
  append_blanks-Grows zero g text h = (g, true, [], refl, unchanged g text h)
  append_blanks-Grows (suc k) g text h =
      Grows-then text _ _ (append_text-Grows malloc law g text (0x20 ∷ []) h (omega arith))
        (λ g' r text' h'. append_blanks-Grows k g' text' h')

  append_left-Grows :
      (c : TextConversion) (g : Dwarfstring) (text s : List ℕ)
      → Holds g text
      → length s < 2 ^ 62
      → Grows text (append_left malloc c g s)
  unfolding append_left
  append_left-Grows c g text s h small =
      Grows-then text _ _ (append_text-Grows malloc law g text s h small) (λ g' r text' h'.
        elim (Bool-cases (c.fixedlen == 0)) [
          | inl e ↦ rw e (g', true, [], refl, unchanged g' text' h')
          | inr e ↦ rw e (
              Grows-then text' _ _
                (append_spaces-Grows malloc law g' text' (c.fixedlen - length s) h')
                (λ g'' r' text'' h''. (g'', true, [], refl, unchanged g'' text'' h'')))
        ])

  append_right-Grows :
      (c : TextConversion) (g : Dwarfstring) (text s : List ℕ)
      → Holds g text
      → length s < 2 ^ 62
      → Grows text (append_right malloc c g s)
  unfolding append_right
  append_right-Grows c g text s h small =
      elim (Bool-cases (not (c.fixedlen == 0) && ltb c.fixedlen (length s))) [
        | inl e ↦ rw e (
            Grows-then text _ _ (append_text-Grows malloc law g text s h small)
              (λ g' r text' h'. (g', true, [], refl, unchanged g' text' h')))
        | inr e ↦ rw e (
            Grows-then text _ _ blanks
              (λ g' r text' h'. append_text-Grows malloc law g' text' s h' small))
      ]
    where
      blanks : Grows text (
          if c.fixedlen == 0
          then some (g, true)
          else append_blanks malloc (c.fixedlen - length s) g)
      blanks = elim (Bool-cases (c.fixedlen == 0)) [
        | inl z ↦ rw z (g, true, [], refl, unchanged g text h)
        | inr z ↦ rw z (append_blanks-Grows (c.fixedlen - length s) g text h)
      ]

  append_justified-Grows :
      (c : TextConversion) (g : Dwarfstring) (text s : List ℕ)
      → Holds g text
      → length s < 2 ^ 62
      → Grows text (append_justified malloc c g s)
  unfolding append_justified
  append_justified-Grows c g text s h small =
      elim (Bool-cases
        (c.leftjustify && not (not (c.fixedlen == 0) && leb c.fixedlen (length s)))) [
          | inl e ↦ rw e (append_left-Grows c g text s h small)
          | inr e ↦ rw e (append_right-Grows c g text s h small)
        ]

  append_text_conversion-Grows :
      (c : TextConversion) (g : Dwarfstring) (text s : List ℕ)
      → Holds g text
      → length s < 2 ^ 62
      → length c.suffix < 2 ^ 62
      → Grows text (append_text_conversion malloc c g s)
  unfolding append_text_conversion
  append_text_conversion-Grows c g text s h small short =
      Grows-then text _ _ (append_justified-Grows c g text s h small) (λ g' r text' h'.
        elim (Bool-cases (not r)) [
          | inl e ↦ rw e (g', false, [], refl, unchanged g' text' h')
          | inr e ↦ elim (Bool-cases (first_char c.suffix == 0)) [
            | inl z ↦ rw (e, z) (g', true, [], refl, unchanged g' text' h')
            | inr z ↦ rw (e, z) (append_text-Grows malloc law g' text' c.suffix h' short)
          ]
        ])

  accepted-Grows :
      (scanned : TextScanned) (format : List ℕ) (g : Dwarfstring) (text s : List ℕ)
      → IsTextScanned format scanned
      → length format < 2 ^ 62
      → length s < 2 ^ 62
      → Holds g text
      → Grows text (elim scanned as (λ x. Option (Dwarfstring × Bool)) [
        | refused message ↦ append_error malloc g message
        | accepted c ↦ append_text_conversion malloc c g s
      ])
  accepted-Grows (refused message) format g text s i wide small h =
      GrowsFalse-Grows text _ (append_error-Grows malloc law g text message h i)
  accepted-Grows (accepted c) format g text s i wide small h =
      append_text_conversion-Grows c g text s h small (omega arith)

  printf_s_from-Grows :
      (g : Dwarfstring) (text rest s : List ℕ)
      → length rest < 2 ^ 62
      → length s < 2 ^ 62
      → Holds g text
      → Grows text (append_printf_s_from malloc g rest s)
  unfolding append_printf_s_from
  printf_s_from-Grows g text [] s wide small h =
      GrowsFalse-Grows text _ (append_error-Grows malloc law g text _ h (omega arith))
  printf_s_from-Grows g text (p ∷ format) s wide small h =
      accepted-Grows (scan_text format) format g text s (scan_text-IsTextScanned format)
        (omega arith) small h

  before-Grows :
      (g : Dwarfstring) (text before : List ℕ)
      → Holds g text
      → length before < 2 ^ 62
      → Grows text (if length before == 0 then some (g, true) else append_text malloc g before)
  before-Grows g text before h small = elim (Bool-cases (length before == 0)) [
    | inl z ↦ rw z (g, true, [], refl, unchanged g text h)
    | inr z ↦ rw z (append_text-Grows malloc law g text before h small)
  ]

-- Whatever the allocator answers, `dwarfstring_append_printf_s` ends without a step outside a block
-- for any format and string of fewer than 2^62 characters, and the string buffer still holds its
-- text, with more behind it. For a null string or a null format the answer is FALSE.
pub dwarfstring_append_printf_s-Grows :
    (malloc : ℕ → Option (List ℕ)) (g : Dwarfstring) (text format s : List ℕ)
    → IsAllocator malloc
    → Holds g text
    → length format < 2 ^ 62
    → length s < 2 ^ 62
    → Grows text (dwarfstring_append_printf_s malloc g (some format) (some s))
      × GrowsFalse text (dwarfstring_append_printf_s malloc g none (some s))
      × GrowsFalse text (dwarfstring_append_printf_s malloc g (some format) none)
unfolding dwarfstring_append_printf_s
dwarfstring_append_printf_s-Grows malloc g text format s law h wide small =
    let parts = length-split_percent format in
    (
      Grows-then text _ _ (before-Grows malloc law g text (split_percent format).0 h (omega arith))
          (λ g' r text' h'.
            printf_s_from-Grows malloc law g' text' (split_percent format).1 s (omega arith) small
              h'),
      append_error-Grows malloc law g text _ h (omega arith),
      append_error-Grows malloc law g text _ h (omega arith),
    )

-- ===== src/DwarfString/Signed/Safe.antt =====
-- `dwarfstring_append_printf_i` of src/dwarf_string.c never leaves its blocks.
use readelfobj_code.Base.{
  ℕ, ◌-◌, ◌≤◌, ◌<◌, ◌^◌, ◌≡◌, inl, inr, refl, arith, Bool, true, not, ◌||◌, Option, none, some,
  List, [], ◌∷◌, ◌++◌, length, length-append, leb, ◌==◌, Bool-cases, Option-cases,
}
use readelfobj_code.Base.Memory.{◌>>=◌}
use readelfobj_code.Base.Text.{first_char}
use readelfobj_code.DwarfString.{Dwarfstring}
use readelfobj_code.DwarfString.Content.{Holds, IsAllocator}
use readelfobj_code.DwarfString.Padding.{append_zeros, append_text, append_error}
use readelfobj_code.DwarfString.Padding.Grows.{
  Grows, GrowsFalse, GrowsFalse-Grows, Grows-then, unchanged, append_text-Grows,
  append_spaces-Grows, append_zeros-Grows, append_error-Grows,
}
use readelfobj_code.DwarfString.Scan.{split_percent, skip}
use readelfobj_code.DwarfString.Signed.{
  SignedConversion, SignedScanned, refused, accepted, scan_signed, refuse_signed,
  scan_signed_format, signed_digits, append_after_sign, append_signed_padded,
  append_signed_conversion, append_printf_i_from, dwarfstring_append_printf_i,
}
use readelfobj_code.DwarfString.Signed.Number.{signed_digits_lem, sign_of}
use readelfobj_code.DwarfString.Unsigned.{Conversion}
use readelfobj_code.DwarfString.Unsigned.Formats.{length-split_percent, length-skip, length-suffix}

-- The messages are short, and the suffix is a part of the format.
abbrev IsSignedScanned : List ℕ → SignedScanned → Type 0
IsSignedScanned s (refused message) = length message < 2 ^ 62
IsSignedScanned s (accepted c) = length c.number.suffix ≤ length s

length-message :
    (c : SignedConversion) (message : List ℕ)
    → refuse_signed c ≡ some message
    → length message < 2 ^ 62
unfolding refuse_signed
length-message c message h = ground arith

length-scan_signed : (s : List ℕ) → length (scan_signed s).number.suffix ≤ length s
unfolding scan_signed
length-scan_signed s =
    let a = skip 0x2d s in
    let b = skip 0x2b a in
    omega (
      arith,
      length-skip 0x2d s,
      length-skip 0x2b a,
      length-skip 0x2d b,
      length-suffix (skip 0x2d b),
    )

scan_signed_format-IsSignedScanned : (s : List ℕ) → IsSignedScanned s (scan_signed_format s)
unfolding scan_signed_format
scan_signed_format-IsSignedScanned s = elim (Bool-cases (first_char s == 0)) [
  | inl a ↦ rw (scan_signed_format, a) (omega arith)
  | inr a ↦ elim (Bool-cases (first_char s == 0x20)) [
    | inl b ↦ rw (scan_signed_format, a, b) (omega arith)
    | inr b ↦ elim (Option-cases (refuse_signed (scan_signed s))) [
      | inl d ↦ rw (scan_signed_format, a, b, d) (length-scan_signed s)
      | inr (message, d) ↦
          rw (scan_signed_format, a, b, d) (length-message (scan_signed s) message d)
    ]
  ]
]

-- There is a text for any 64-bit number, of at most 21 characters.
signed_digits-some :
    (plus : Bool) (v : ℕ)
    → v < 2 ^ 64
    → (digits : List ℕ) × (signed_digits plus v ≡ some digits) × (length digits ≤ 21)
signed_digits-some plus v h =
    let (ds, r, _, _, few, _) = signed_digits_lem plus v h in
    (sign_of plus v ++ ds, r, ground (arith, length-append (sign_of plus v) ds))

module _ (malloc : ℕ → Option (List ℕ)) (law : IsAllocator malloc) where
  append_true-Grows :
      (g : Dwarfstring) (text s : List ℕ)
      → Holds g text
      → length s < 2 ^ 62
      → Grows text (append_text malloc g s >>= λ (g', _). some (g', true))
  append_true-Grows g text s h small =
      Grows-then text _ _ (append_text-Grows malloc law g text s h small)
        (λ g' r text' h'. (g', true, [], refl, unchanged g' text' h'))

  zeros_text-Grows :
      (g : Dwarfstring) (text s : List ℕ) (count : ℕ)
      → Holds g text
      → length s < 2 ^ 62
      → Grows text (append_zeros malloc g count >>= λ (g', _). append_text malloc g' s)
  zeros_text-Grows g text s count h small =
      Grows-then text _ _ (append_zeros-Grows malloc law g text count h)
        (λ g' r text' h'. append_text-Grows malloc law g' text' s h' small)

  append_after_sign-Grows :
      (g : Dwarfstring) (text digits : List ℕ) (count : ℕ)
      → Holds g text
      → length digits < 2 ^ 62
      → Grows text (append_after_sign malloc g count digits)
  unfolding append_after_sign
  append_after_sign-Grows g text [] count h small = zeros_text-Grows g text [] count h (omega arith)
  append_after_sign-Grows g text (sign ∷ digits) count h small =
      elim (Bool-cases (sign == 0x2d || sign == 0x2b)) [
        | inl e ↦ rw e (
            Grows-then text _ _ (append_text-Grows malloc law g text (sign ∷ []) h (omega arith))
              (λ g' r text' h'. zeros_text-Grows g' text' digits count h' (omega arith)))
        | inr e ↦ rw e (zeros_text-Grows g text (sign ∷ digits) count h small)
      ]

  append_signed_padded-Grows :
      (n : Conversion) (g : Dwarfstring) (text digits : List ℕ)
      → Holds g text
      → length digits < 2 ^ 62
      → Grows text (append_signed_padded malloc n g digits)
  unfolding append_signed_padded
  append_signed_padded-Grows n g text digits h small = elim (Bool-cases (n.fixedlen == 0)) [
    | inl z ↦ rw z (append_text-Grows malloc law g text digits h small)
    | inr z ↦ elim (Bool-cases (leb n.fixedlen (length digits))) [
      | inl e ↦ rw (z, e) (append_true-Grows g text digits h small)
      | inr e ↦ elim (Bool-cases (not n.leadingzero)) [
        | inl l ↦
            rw (z, e, l)
              (Grows-then text _ _
                (append_spaces-Grows malloc law g text (n.fixedlen - length digits) h)
                (λ g' r text' h'. append_true-Grows g' text' digits h' small))
        | inr l ↦
            rw (z, e, l)
              (Grows-then text _ _
                (append_after_sign-Grows g text digits (n.fixedlen - length digits) h small)
                (λ g' r text' h'. (g', true, [], refl, unchanged g' text' h')))
      ]
    ]
  ]

  append_signed_conversion-Grows :
      (c : SignedConversion) (g : Dwarfstring) (text : List ℕ) (v : ℕ)
      → Holds g text
      → length c.number.suffix < 2 ^ 62
      → v < 2 ^ 64
      → Grows text (append_signed_conversion malloc c g v)
  unfolding append_signed_conversion
  append_signed_conversion-Grows c g text v h short hv =
      let (digits, e, few) = signed_digits-some (not (c.pluscount == 0)) v hv in
      rw e (
        Grows-then text _ _ (append_signed_padded-Grows c.number g text digits h (omega arith))
          (λ g' r text' h'. elim (Bool-cases (first_char c.number.suffix == 0)) [
            | inl z ↦ rw z (g', r, [], refl, unchanged g' text' h')
            | inr z ↦ rw z (append_text-Grows malloc law g' text' c.number.suffix h' short)
          ]))

  accepted-Grows :
      (scanned : SignedScanned) (format : List ℕ) (g : Dwarfstring) (text : List ℕ) (v : ℕ)
      → IsSignedScanned format scanned
      → length format < 2 ^ 62
      → v < 2 ^ 64
      → Holds g text
      → Grows text (elim scanned as (λ x. Option (Dwarfstring × Bool)) [
        | refused message ↦ append_error malloc g message
        | accepted c ↦ append_signed_conversion malloc c g v
      ])
  accepted-Grows (refused message) format g text v i wide hv h =
      GrowsFalse-Grows text _ (append_error-Grows malloc law g text message h i)
  accepted-Grows (accepted c) format g text v i wide hv h =
      append_signed_conversion-Grows c g text v h (omega arith) hv

  printf_i_from-Grows :
      (g : Dwarfstring) (text rest : List ℕ) (v : ℕ)
      → length rest < 2 ^ 62
      → v < 2 ^ 64
      → Holds g text
      → Grows text (append_printf_i_from malloc g rest v)
  unfolding append_printf_i_from
  printf_i_from-Grows g text [] v wide hv h =
      GrowsFalse-Grows text _ (append_error-Grows malloc law g text _ h (omega arith))
  printf_i_from-Grows g text (p ∷ format) v wide hv h =
      accepted-Grows (scan_signed_format format) format g text v
        (scan_signed_format-IsSignedScanned format) (omega arith) hv h

-- Whatever the allocator answers, `dwarfstring_append_printf_i` ends without a step outside a block
-- for any 64-bit number and any format of fewer than 2^62 characters, and the string buffer still
-- holds its text, with more behind it. For a null format the answer is FALSE.
pub dwarfstring_append_printf_i-Grows :
    (malloc : ℕ → Option (List ℕ)) (g : Dwarfstring) (text format : List ℕ) (v : ℕ)
    → IsAllocator malloc
    → Holds g text
    → length format < 2 ^ 62
    → v < 2 ^ 64
    → Grows text (dwarfstring_append_printf_i malloc g (some format) v)
      × GrowsFalse text (dwarfstring_append_printf_i malloc g none v)
unfolding dwarfstring_append_printf_i
dwarfstring_append_printf_i-Grows malloc g text format v law h wide hv =
    let parts = length-split_percent format in
    (
      Grows-then text _ _
          (append_text-Grows malloc law g text (split_percent format).0 h (omega arith))
          (λ g' r text' h'.
            printf_i_from-Grows malloc law g' text' (split_percent format).1 v (omega arith) hv h'),
      append_error-Grows malloc law g text _ h (omega arith),
    )

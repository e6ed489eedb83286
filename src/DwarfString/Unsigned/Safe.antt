-- ===== src/DwarfString/Unsigned/Safe.antt =====
-- `dwarfstring_append_printf_u` of src/dwarf_string.c never leaves its blocks.
use readelfobj_code.Base.{
  ℕ, ◌≤◌, ◌<◌, ◌^◌, ◌≡◌, inl, inr, refl, ap, ◌∙◌, arith, Bool, false, Option, none, some, List, [],
  ◌∷◌, ◌-◌, length, ◌==◌, if◌then◌else◌, leb, Bool-cases, not,
}
use mathlib.Core.List.{append-nil}
use readelfobj_code.Base.Memory.{◌>>=◌}
use readelfobj_code.Base.Text.{first_char}
use readelfobj_code.DwarfString.{Dwarfstring}
use readelfobj_code.DwarfString.Content.{Holds, IsAllocator}
use readelfobj_code.DwarfString.Digits.Value.{decimal_digits-Digits, hex_digits-Digits}
use readelfobj_code.DwarfString.Scan.{split_percent}
use readelfobj_code.DwarfString.Unsigned.{
  Conversion, Scanned, refused, accepted, scan_format, conversion_digits, append_padded,
  append_conversion, append_printf_u_from, dwarfstring_append_printf_u,
}
use readelfobj_code.DwarfString.Unsigned.Formats.{
  IsScanned, length-suffix, length-split_percent, scan_format-IsScanned,
}
use readelfobj_code.DwarfString.Padding.Grows.{
  Grows, GrowsFalse, Grows-then, Grows-then_false, unchanged, append_text-Grows,
  append_spaces-Grows, append_zeros-Grows, append_error-Grows,
}
use readelfobj_code.DwarfString.Padding.{append_text, append_error}

-- There are digits for any 64-bit value, and no more than 20.
conversion_digits-some :
    (c : Conversion) (v : ℕ)
    → v < 2 ^ 64
    → (digits : List ℕ) × (conversion_digits c v ≡ some digits) × (length digits ≤ 20)
unfolding conversion_digits
conversion_digits-some c v h =
    let (lower, upper) = hex_digits-Digits v h in
    elim (Bool-cases (not (c.ucount == 0))) [
      | inl e ↦
          let (ds, r, _, _, few, _) = decimal_digits-Digits v h in
          (ds, rw e (r ∙ ap some (append-nil ds)), few)
      | inr e ↦ elim (Bool-cases (not (c.xcount == 0))) [
        | inl x ↦
            let (ds, r, _, _, few, _) = lower in
            (ds, rw (e, x) (r ∙ ap some (append-nil ds)), omega arith)
        | inr x ↦
            let (ds, r, _, _, few, _) = upper in
            (ds, rw (e, x) (r ∙ ap some (append-nil ds)), omega arith)
      ]
    ]

module _ (malloc : ℕ → Option (List ℕ)) (law : IsAllocator malloc) where
  append_padded-Grows :
      (c : Conversion) (g : Dwarfstring) (text digits : List ℕ)
      → Holds g text
      → length digits < 2 ^ 62
      → Grows text (append_padded malloc c g digits)
  unfolding append_padded
  append_padded-Grows c g text digits h small =
      let behind : (g' : Dwarfstring) (r : Bool) (text' : List ℕ)
          → Holds g' text'
          → Grows text' (append_text malloc g' digits) =
        λ g' r text' h'. append_text-Grows malloc law g' text' digits h' small in
      elim (Bool-cases (leb c.fixedlen (length digits))) [
        | inl e ↦ rw e (append_text-Grows malloc law g text digits h small)
        | inr e ↦ elim (Bool-cases (not c.leadingzero)) [
          | inl z ↦
              rw (e, z)
                (Grows-then text _ _
                  (append_spaces-Grows malloc law g text (c.fixedlen - length digits) h) behind)
          | inr z ↦
              rw (e, z)
                (Grows-then text _ _
                  (append_zeros-Grows malloc law g text (c.fixedlen - length digits) h) behind)
        ]
      ]

  -- What follows the digits.
  suffix-Grows :
      (c : Conversion) (g : Dwarfstring) (text : List ℕ)
      → Holds g text
      → length c.suffix < 2 ^ 62
      → GrowsFalse text (
          if first_char c.suffix == 0
          then some (g, false)
          else (append_text malloc g c.suffix >>= λ (g'', _). some (g'', false)))
  suffix-Grows c g text h small = elim (Bool-cases (first_char c.suffix == 0)) [
    | inl e ↦ rw e (g, [], refl, unchanged g text h)
    | inr e ↦ rw e (append_error-Grows malloc law g text c.suffix h small)
  ]

  append_conversion-Grows :
      (c : Conversion) (g : Dwarfstring) (text : List ℕ) (v : ℕ)
      → Holds g text
      → length c.suffix < 2 ^ 62
      → v < 2 ^ 64
      → GrowsFalse text (append_conversion malloc c g v)
  unfolding append_conversion
  append_conversion-Grows c g text v h small hv =
      let (digits, e, few) = conversion_digits-some c v hv in
      rw e (
        Grows-then_false text _ _ (append_padded-Grows c g text digits h (omega arith))
          (λ g' r text' h'. suffix-Grows c g' text' h' small))

  accepted-Grows :
      (scanned : Scanned) (format : List ℕ) (g : Dwarfstring) (text : List ℕ) (v : ℕ)
      → IsScanned format scanned
      → length format < 2 ^ 62
      → v < 2 ^ 64
      → Holds g text
      → GrowsFalse text (elim scanned as (λ x. Option (Dwarfstring × Bool)) [
        | refused message ↦ append_error malloc g message
        | accepted c ↦ append_conversion malloc c g v
      ])
  accepted-Grows (refused message) format g text v i wide hv h =
      append_error-Grows malloc law g text message h i
  accepted-Grows (accepted c) format g text v i wide hv h =
      let short : length c.suffix < 2 ^ 62 = rw i (omega (arith, length-suffix format)) in
      append_conversion-Grows c g text v h short hv

  printf_u_from-Grows :
      (g : Dwarfstring) (text rest : List ℕ) (v : ℕ)
      → length rest < 2 ^ 62
      → v < 2 ^ 64
      → Holds g text
      → GrowsFalse text (append_printf_u_from malloc g rest v)
  unfolding append_printf_u_from
  printf_u_from-Grows g text [] v wide hv h = append_error-Grows malloc law g text _ h (omega arith)
  printf_u_from-Grows g text (p ∷ format) v wide hv h =
      accepted-Grows (scan_format format) format g text v (scan_format-IsScanned format)
        (omega arith) hv h

-- Whatever the allocator answers and whatever the format and the 64-bit value are,
-- `dwarfstring_append_printf_u` ends without a step outside a block: the string still holds its
-- text, with more behind it, and the answer is FALSE. The format has fewer than 2^62 characters.
pub dwarfstring_append_printf_u-GrowsFalse :
    (malloc : ℕ → Option (List ℕ)) (g : Dwarfstring) (text : List ℕ) (format : List ℕ) (v : ℕ)
    → IsAllocator malloc
    → Holds g text
    → length format < 2 ^ 62
    → v < 2 ^ 64
    → GrowsFalse text (dwarfstring_append_printf_u malloc g (some format) v)
      × GrowsFalse text (dwarfstring_append_printf_u malloc g none v)
unfolding dwarfstring_append_printf_u
dwarfstring_append_printf_u-GrowsFalse malloc g text format v law h wide hv =
    let parts = length-split_percent format in
    (
      Grows-then_false text _ _
          (append_text-Grows malloc law g text (split_percent format).0 h (omega arith))
          (λ g' r text' h'.
            printf_u_from-Grows malloc law g' text' (split_percent format).1 v (omega arith) hv h'),
      append_error-Grows malloc law g text _ h (omega arith),
    )

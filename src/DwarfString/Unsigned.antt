-- ===== src/DwarfString/Unsigned.antt =====
-- `dwarfstring_append_printf_u` of src/dwarf_string.c. The branches for _WIN32 are not modelled. A
-- format is a C string, or NULL; the value has 64 bits.
pub mod Formats
pub mod Safe
use readelfobj_code.Base.{
  ℕ, zero, suc, ◌+◌, ◌-◌, ◌^◌, Bool, true, false, not, ◌&&◌, ◌||◌, Option, none, some, List, [],
  ◌∷◌, length, replicate, ltb, leb, ◌==◌, if◌then◌else◌,
}
use readelfobj_code.Base.Memory.{◌>>=◌}
use readelfobj_code.Base.Text.{codes, first_char}
use readelfobj_code.DwarfString.Padding.{append_spaces, append_zeros, append_text, append_error}
use readelfobj_code.DwarfString.{Dwarfstring, dwarfstring_append_length}
use readelfobj_code.DwarfString.Digits.{decimal_digits, hex_digits, xtable, xtable_upper}
use readelfobj_code.DwarfString.Scan.{split_percent, skip, count_if, strtol}

-- What the letters of a conversion give: the counts of the letters, and the format behind them.
pub record Conversion : Type 0 where
  pub leadingzero : Bool
  pub fixedlen : ℕ
  pub lcount : ℕ
  pub ucount : ℕ
  pub dcount : ℕ
  pub xcount : ℕ
  pub upper_xcount : ℕ
  pub suffix : List ℕ

-- From the character behind the `%`, and a `-`, on.
unfoldable pub scan_unsigned : List ℕ → Conversion
scan_unsigned format =
    let a = skip 0x30 format in
    let (val, b) = strtol a in
    let c = skip 0x6c b in
    let d = skip 0x6c c in
    let e = skip 0x6c d in
    let f = skip 0x75 e in
    let g = skip 0x64 f in
    let h = skip 0x78 g in
    record {
      leadingzero = first_char format == 0x30;
      fixedlen = val;
      lcount = count_if 0x6c b + count_if 0x6c c + count_if 0x6c d;
      ucount = count_if 0x75 e;
      dcount = count_if 0x64 f;
      xcount = count_if 0x78 g;
      upper_xcount = count_if 0x58 h;
      suffix = skip 0x58 h;
    }

abbrev pub letter_count : Conversion → ℕ
letter_count c = c.upper_xcount + c.xcount + c.dcount + c.ucount

-- The tests on what was scanned, in their order: the message of the first that fails, or nothing.
unfoldable pub refuse_conversion : Conversion → Option (List ℕ)
refuse_conversion c =
    if first_char c.suffix == 0x73
    then some (
        codes
          "<DWARFSTRINGERR: format percent-s passed to dwarfstring_append_printf_u cannot be handled>")
    else if ltb 1 (letter_count c)
    then some (
        codes
          "<DWARFSTRINGERR: format  percent -x X d u repeats to dwarfstring_append_printf_u cannot be handled>")
    else if letter_count c == 0
    then some (
        codes
          "<DWARFSTRINGERR: format percent x X d u missing to dwarfstring_append_printf_u cannot be handled>")
    else if ltb 2 c.lcount
    then some (
        codes
          "<DWARFSTRINGERR: format percent lll to dwarfstring_append_printf_u cannot be handled>")
    else if ltb 0 c.dcount
    then some (
        codes
          "<DWARFSTRINGERR: format  percent-d to dwarfstring_append_printf_u cannot be handled>")
    else none

-- The digits of the value in the base that the letters ask for. `none` is a write outside the array.
unfoldable pub conversion_digits : Conversion → ℕ → Option (List ℕ)
conversion_digits c v =
    if not (c.ucount == 0)
    then decimal_digits v
    else if not (c.xcount == 0)
    then hex_digits xtable v
    else hex_digits xtable_upper v

-- The part of a format behind a `%`: what is wrong with it, or the conversion.
pub data Scanned : Type 0 where
  refused : List ℕ → Scanned
  accepted : Conversion → Scanned

unfoldable pub scan_format : List ℕ → Scanned
unfolding scan_unsigned refuse_conversion
scan_format format =
    if first_char format == 0
    then refused (codes "<DWARFSTRINGERR: empty percent  to dwarfstring_append_printf_u>")
    else if first_char format == 0x20
    then refused (codes "<DWARFSTRINGERR: empty percent  to dwarfstring_append_printf_u>")
    else if first_char format == 0x2d
    then refused
        (codes "<DWARFSTRINGERR: format - passed to dwarfstring_append_printf_u cannot be handled>")
    else elim (refuse_conversion (scan_unsigned format)) [
      | some message ↦ refused message
      | none ↦ accepted (scan_unsigned format)
    ]

module _ (malloc : ℕ → Option (List ℕ)) where
  -- The digits, padded on the left to `fixedlen` characters.
  unfoldable pub append_padded : Conversion → Dwarfstring → List ℕ → Option (Dwarfstring × Bool)
  unfolding append_spaces append_zeros
  append_padded c g digits =
      if leb c.fixedlen (length digits)
      then append_text malloc g digits
      else if not c.leadingzero
      then (append_spaces malloc g (c.fixedlen - length digits) >>= λ (g', _).
          append_text malloc g' digits)
      else (append_zeros malloc g (c.fixedlen - length digits) >>= λ (g', _).
          append_text malloc g' digits)

  -- What is written for a conversion that was accepted. The answer is FALSE.
  unfoldable pub append_conversion : Conversion → Dwarfstring → ℕ → Option (Dwarfstring × Bool)
  unfolding conversion_digits append_padded
  append_conversion c g v = conversion_digits c v >>= λ digits.
      append_padded c g digits >>= λ (g', _).
      if first_char c.suffix == 0
      then some (g', false)
      else (append_text malloc g' c.suffix >>= λ (g'', _). some (g'', false))

  unfoldable pub append_printf_u_from : Dwarfstring → List ℕ → ℕ → Option (Dwarfstring × Bool)
  unfolding scan_format append_conversion
  append_printf_u_from g [] v =
      append_error malloc g
        (codes "<DWARFSTRINGERR: no percent passed to dwarfstring_append_printf_u>")
  append_printf_u_from g (percent ∷ format) v = elim (scan_format format) [
    | refused message ↦ append_error malloc g message
    | accepted c ↦ append_conversion c g v
  ]

  unfoldable pub dwarfstring_append_printf_u :
      Dwarfstring → Option (List ℕ) → ℕ → Option (Dwarfstring × Bool)
  unfolding split_percent append_printf_u_from
  dwarfstring_append_printf_u g none v =
      append_error malloc g
        (codes "<DWARFSTRINGERR: null format pointer to dwarfstring_append_printf_u>")
  dwarfstring_append_printf_u g (some format) v =
      let (before, rest) = split_percent format in
      append_text malloc g before >>= λ (g', _). append_printf_u_from g' rest v

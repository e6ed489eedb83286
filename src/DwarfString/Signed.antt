-- ===== src/DwarfString/Signed.antt =====
-- `dwarfstring_append_printf_i` of src/dwarf_string.c, for a `long long` of 64 bits given as its bit
-- pattern. The branches for _WIN32 and for 32-bit numbers are not modelled.
pub mod Number
pub mod Safe
use readelfobj_code.Base.{
  ℕ, zero, suc, ◌+◌, ◌-◌, ◌^◌, Bool, true, false, not, ◌&&◌, ◌||◌, Option, none, some, List, [],
  ◌∷◌, length, ltb, leb, ◌==◌, if◌then◌else◌,
}
use readelfobj_code.Base.Memory.{◌>>=◌}
use readelfobj_code.Base.Text.{codes, first_char}
use readelfobj_code.DwarfString.{Dwarfstring}
use readelfobj_code.DwarfString.Digits.{decimal_digits}
use readelfobj_code.DwarfString.Padding.{append_spaces, append_zeros, append_text, append_error}
use readelfobj_code.DwarfString.Scan.{split_percent, skip, count_if, tail_of}
use readelfobj_code.DwarfString.Unsigned.{Conversion, letter_count, scan_unsigned}

-- The signs in front of the width, and the rest as for an unsigned number.
pub record SignedConversion : Type 0 where
  pub minuscount : ℕ
  pub pluscount : ℕ
  pub number : Conversion

unfoldable pub scan_signed : List ℕ → SignedConversion
unfolding scan_unsigned
scan_signed format =
    let a = skip 0x2d format in
    let b = skip 0x2b a in
    record {
      minuscount = count_if 0x2d format + count_if 0x2d b;
      pluscount = count_if 0x2b a;
      number = scan_unsigned (skip 0x2d b);
    }

-- The tests on what was scanned, in their order: the message of the first that fails, or nothing.
unfoldable pub refuse_signed : SignedConversion → Option (List ℕ)
refuse_signed c =
    let n = c.number in
    if first_char n.suffix == 0x73
    then some (codes "<DWARFSTRINGERR: format percent s passed to dwarfstring_append_printf_i>")
    else if not (n.xcount == 0) || not (n.upper_xcount == 0)
    then some (codes "<DWARFSTRINGERR: format %x or %X passed to dwarfstring_append_printf_i>")
    else if n.dcount == 0 || ltb 2 n.lcount || ltb 1 (letter_count n)
    then some (
        codes
          "<DWARFSTRINGERR: format has too many percent x/d/u/l passed to dwarfstring_append_printf_i>")
    else if not (c.pluscount == 0) && not (c.minuscount == 0)
    then some
        (codes "<DWARFSTRINGERR: format disallowed. +- passed to dwarfstring_append_printf_i>")
    else none

pub data SignedScanned : Type 0 where
  refused : List ℕ → SignedScanned
  accepted : SignedConversion → SignedScanned

-- The part of a format behind a `%`.
unfoldable pub scan_signed_format : List ℕ → SignedScanned
unfolding scan_signed refuse_signed
scan_signed_format format =
    if first_char format == 0
    then refused (codes "<DWARFSTRINGERR: empty percent  to dwarfstring_append_printf_i>")
    else if first_char format == 0x20
    then refused (codes "<DWARFSTRINGERR: empty percent  to dwarfstring_append_printf_i>")
    else elim (refuse_signed (scan_signed format)) [
      | some message ↦ refused message
      | none ↦ accepted (scan_signed format)
    ]

-- A sign in front of the digits, in an array that has 35 places for them.
unfoldable pub push_sign : ℕ → List ℕ → Option (List ℕ)
push_sign sign digits = if ltb (length digits) 35 then some (sign ∷ digits) else none

-- The text of a number. The least number is a constant; any other negative one is turned round.
unfoldable pub signed_digits : Bool → ℕ → Option (List ℕ)
unfolding push_sign
signed_digits plus v =
    if v == 2 ^ 63
    then some (codes "-9223372036854775808")
    else if ltb (2 ^ 63) v
    then (decimal_digits (2 ^ 64 - v) >>= push_sign 0x2d)
    else if plus
    then (decimal_digits v >>= push_sign 0x2b)
    else decimal_digits v

module _ (malloc : ℕ → Option (List ℕ)) where
  -- Zeros between a sign and the digits.
  unfoldable pub append_after_sign : Dwarfstring → ℕ → List ℕ → Option (Dwarfstring × Bool)
  append_after_sign g count [] = append_zeros malloc g count >>= λ (g', _). append_text malloc g' []
  append_after_sign g count (sign ∷ digits) =
      if sign == 0x2d || sign == 0x2b
      then (append_text malloc g (sign ∷ []) >>= λ (g', _).
          append_zeros malloc g' count >>= λ (g'', _). append_text malloc g'' digits)
      else (append_zeros malloc g count >>= λ (g', _). append_text malloc g' (sign ∷ digits))

  -- The answer is that of the last append only where there is no width.
  unfoldable pub append_signed_padded :
      Conversion → Dwarfstring → List ℕ → Option (Dwarfstring × Bool)
  unfolding append_after_sign
  append_signed_padded n g digits =
      if n.fixedlen == 0
      then append_text malloc g digits
      else if leb n.fixedlen (length digits)
      then (append_text malloc g digits >>= λ (g', _). some (g', true))
      else if not n.leadingzero
      then (append_spaces malloc g (n.fixedlen - length digits) >>= λ (g', _).
          append_text malloc g' digits >>= λ (g'', _). some (g'', true))
      else (append_after_sign g (n.fixedlen - length digits) digits >>= λ (g', _). some (g', true))

  unfoldable pub append_signed_conversion :
      SignedConversion → Dwarfstring → ℕ → Option (Dwarfstring × Bool)
  unfolding signed_digits append_signed_padded
  append_signed_conversion c g v = signed_digits (not (c.pluscount == 0)) v >>= λ digits.
      append_signed_padded c.number g digits >>= λ (g', res).
      if first_char c.number.suffix == 0
      then some (g', res)
      else append_text malloc g' c.number.suffix

  unfoldable pub append_printf_i_from : Dwarfstring → List ℕ → ℕ → Option (Dwarfstring × Bool)
  unfolding scan_signed_format append_signed_conversion
  append_printf_i_from g [] v =
      append_error malloc g
        (codes "<DWARFSTRINGERR: no percent passed to dwarfstring_append_printf_i>")
  append_printf_i_from g (percent ∷ format) v = elim (scan_signed_format format) [
    | refused message ↦ append_error malloc g message
    | accepted c ↦ append_signed_conversion c g v
  ]

  unfoldable pub dwarfstring_append_printf_i :
      Dwarfstring → Option (List ℕ) → ℕ → Option (Dwarfstring × Bool)
  unfolding split_percent append_printf_i_from
  dwarfstring_append_printf_i g none v =
      append_error malloc g
        (codes "<DWARFSTRINGERR: null format pointer to dwarfstring_append_printf_i>")
  dwarfstring_append_printf_i g (some format) v =
      let (before, rest) = split_percent format in
      append_text malloc g before >>= λ (g', _). append_printf_i_from g' rest v

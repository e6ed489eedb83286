-- ===== src/DwarfString/Text.antt =====
-- `dwarfstring_append_printf_s` of src/dwarf_string.c. The format and the string are C strings, or
-- NULL.
pub mod Safe
use readelfobj_code.Base.{
  ℕ, zero, suc, ◌+◌, ◌-◌, Bool, true, false, not, ◌&&◌, Option, none, some, List, [], ◌∷◌, length,
  ltb, leb, ◌==◌, if◌then◌else◌,
}
use readelfobj_code.Base.Memory.{◌>>=◌}
use readelfobj_code.Base.Text.{codes, first_char}
use readelfobj_code.DwarfString.{Dwarfstring}
use readelfobj_code.DwarfString.Padding.{append_spaces, append_text, append_error}
use readelfobj_code.DwarfString.Scan.{split_percent, skip, tail_of, strtol}

-- What a `%s` asks for, and the format behind it. A width of 0 is none.
pub record TextConversion : Type 0 where
  pub leftjustify : Bool
  pub fixedlen : ℕ
  pub suffix : List ℕ

pub data TextScanned : Type 0 where
  refused : List ℕ → TextScanned
  accepted : TextConversion → TextScanned

-- The part of a format behind a `%`.
unfoldable pub scan_text : List ℕ → TextScanned
scan_text format =
    let (val, rest) = strtol (skip 0x2d format) in
    if first_char format == 0
    then refused (codes "<DWARFSTRINGERR: empty percent  to dwarfstring_append_printf_s>")
    else if first_char format == 0x20
    then refused (codes "<DWARFSTRINGERR: empty percent  to dwarfstring_append_printf_s>")
    else if not (first_char rest == 0x73)
    then refused (codes "<DWARFSTRINGERR: no percent-s to dwarfstring_append_printf_s>")
    else accepted
        (record { leftjustify = first_char format == 0x2d; fixedlen = val; suffix = tail_of rest })

module _ (malloc : ℕ → Option (List ℕ)) where
  -- One space at a time; the answers of the appends are not looked at, and the loop has none.
  unfoldable pub append_blanks : ℕ → Dwarfstring → Option (Dwarfstring × Bool)
  append_blanks zero g = some (g, true)
  append_blanks (suc k) g = append_text malloc g (0x20 ∷ []) >>= λ (g', _). append_blanks k g'

  -- The string on the left, and spaces up to the width behind it. The Boolean says to go on.
  unfoldable pub append_left : TextConversion → Dwarfstring → List ℕ → Option (Dwarfstring × Bool)
  append_left c g s = append_text malloc g s >>= λ (g', _).
      if c.fixedlen == 0
      then some (g', true)
      else (append_spaces malloc g' (c.fixedlen - length s) >>= λ (g'', _). some (g'', true))

  -- The string on the right of the spaces. A failure to append the string is the answer.
  unfoldable pub append_right : TextConversion → Dwarfstring → List ℕ → Option (Dwarfstring × Bool)
  unfolding append_blanks
  append_right c g s =
      if not (c.fixedlen == 0) && ltb c.fixedlen (length s)
      then (append_text malloc g s >>= λ (g', _). some (g', true))
      else ((if c.fixedlen == 0 then some (g, true) else append_blanks (c.fixedlen - length s) g)
          >>= λ (g', _). append_text malloc g' s)

  -- A string at least as long as the width is not justified.
  unfoldable pub append_justified :
      TextConversion → Dwarfstring → List ℕ → Option (Dwarfstring × Bool)
  unfolding append_left append_right
  append_justified c g s =
      if c.leftjustify && not (not (c.fixedlen == 0) && leb c.fixedlen (length s))
      then append_left c g s
      else append_right c g s

  unfoldable pub append_text_conversion :
      TextConversion → Dwarfstring → List ℕ → Option (Dwarfstring × Bool)
  unfolding append_justified
  append_text_conversion c g s = append_justified c g s >>= λ (g', go_on).
      if not go_on
      then some (g', false)
      else if first_char c.suffix == 0
      then some (g', true)
      else append_text malloc g' c.suffix

  unfoldable pub append_printf_s_from : Dwarfstring → List ℕ → List ℕ → Option (Dwarfstring × Bool)
  unfolding scan_text append_text_conversion
  append_printf_s_from g [] s =
      append_error malloc g
        (codes "<DWARFSTRINGERR: no percent passed to dwarfstring_append_printf_s>")
  append_printf_s_from g (percent ∷ format) s = elim (scan_text format) [
    | refused message ↦ append_error malloc g message
    | accepted c ↦ append_text_conversion c g s
  ]

  unfoldable pub dwarfstring_append_printf_s :
      Dwarfstring → Option (List ℕ) → Option (List ℕ) → Option (Dwarfstring × Bool)
  unfolding split_percent append_printf_s_from
  dwarfstring_append_printf_s g format none =
      append_error malloc g
        (codes "<DWARFSTRINGERR: null string pointer to dwarfstring_append_printf_s>")
  dwarfstring_append_printf_s g none (some s) =
      append_error malloc g
        (codes "<DWARFSTRINGERR: null format pointer to dwarfstring_append_printf_s>")
  dwarfstring_append_printf_s g (some format) (some s) =
      let (before, rest) = split_percent format in
      (if length before == 0 then some (g, true) else append_text malloc g before) >>= λ (g', _).
      append_printf_s_from g' rest s

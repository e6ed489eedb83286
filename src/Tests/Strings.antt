-- ===== src/Tests/Strings.antt =====
-- The string and arithmetic theorems at concrete inputs.
use readelfobj_code.Base.{
  ℕ, ◌+◌, ◌^◌, ◌≤◌, ◌<◌, ◌≡◌, ◌++◌, ◌-◌, ◌*◌, ◌↔◌, ◌≢◌, ◌⊎◌, refl, sym, ap, ◌∙◌, arith, List, [],
  ◌∷◌, Option, none, some, length, replicate, All, false, ltb, if◌then◌else◌, length-replicate, map,
  Bool-cases, inl, inr,
}
use readelfobj_code.Base.{Bool}
use readelfobj_code.DwarfString.{Dwarfstring, dwarfstring_strlen}
use readelfobj_code.DwarfString.Sequence.{
  Call, append, append_printf_s, append_printf_u, append_printf_i, append_length, reset, destructor,
  perform_all,
}
use readelfobj_code.DwarfString.Sequence.Safe.{perform_all-Holds}
use readelfobj_code.Base.Text.{codes}
use readelfobj_code.Base.Words.{u64}
use readelfobj_code.Bytes.{little_host, asnar, big_value_from, little_value, magic_copy}
use readelfobj_code.Bytes.Order.{
  four, asnar-value, magic_copy-value, high_first_copy, low_first_copy,
}
use readelfobj_code.Codes.{dlv_error}
use readelfobj_code.DwarfString.{dwarfstring_constructor, dwarfstring_append_length}
use readelfobj_code.DwarfString.Content.{
  Holds, IsAllocator, Appended, dwarfstring_constructor-Holds, append_length-Appended,
}
use readelfobj_code.DwarfString.Digits.{dtable, xtable, xtable_upper, decimal_digits, hex_digits}
use readelfobj_code.DwarfString.Digits.Value.{
  Digits, decimal_value, hex_value, decimal_digits-Digits, hex_digits-Digits,
}
use readelfobj_code.DwarfString.Unsigned.{dwarfstring_append_printf_u}
use readelfobj_code.DwarfString.Padding.Grows.{Grows, GrowsFalse}
use readelfobj_code.DwarfString.Text.{dwarfstring_append_printf_s}
use readelfobj_code.DwarfString.Text.Safe.{dwarfstring_append_printf_s-Grows}
use readelfobj_code.DwarfString.Signed.{dwarfstring_append_printf_i, signed_digits}
use readelfobj_code.DwarfString.Signed.Safe.{dwarfstring_append_printf_i-Grows}
use readelfobj_code.DwarfString.Signed.Number.{signed_digits_lem, sign_of, magnitude, IsDigit}
use readelfobj_code.DwarfString.Digits.Value.{value_from}
use readelfobj_code.DwarfString.Unsigned.Safe.{dwarfstring_append_printf_u-GrowsFalse}
use readelfobj_code.SafeArithmetic.{uint64_add, uint64_mult}
use readelfobj_code.SafeArithmetic.Overflow.{uint64_add-error_iff, uint64_mult-error_iff}
use readelfobj_code.Sanitized.{no_questionable_chars}
use readelfobj_code.Sanitized.Escape.{unescape, escape_all}
use readelfobj_code.Sanitized.Calls.{
  calls, calls-map, calls-IsVisible, unescape-calls, sanitized_text, IsVisible,
}

-- An allocator that has a block of any size below 2^63.
unfoldable zeroed_blocks : ℕ → Option (List ℕ)
zeroed_blocks n = if ltb n (2 ^ 63) then some (replicate n 0) else none

some_block : Option (List ℕ) → List ℕ
some_block none = []
some_block (some b) = b

zeroed_blocks-IsAllocator : IsAllocator zeroed_blocks
unfolding zeroed_blocks some_block
zeroed_blocks-IsAllocator n b e = elim (Bool-cases (ltb n (2 ^ 63))) [
  | inl t ↦
      let same = ap some_block (rw t at e) in
      (sym (ap length same) ∙ length-replicate n 0, ground arith)
  | inr t ↦ absurd (cc (rw t at e))
]

append_length-Appended_example :
    Appended zeroed_blocks dwarfstring_constructor []
      (codes "ab")
      2
      (dwarfstring_append_length zeroed_blocks dwarfstring_constructor (some (codes "abc")) 2)
append_length-Appended_example =
    append_length-Appended zeroed_blocks dwarfstring_constructor [] (codes "abc") 2
      zeroed_blocks-IsAllocator dwarfstring_constructor-Holds (omega arith) (omega arith)

dwarfstring_append_printf_u-GrowsFalse_example :
    GrowsFalse [] (
      dwarfstring_append_printf_u zeroed_blocks dwarfstring_constructor (some (codes "n %08x")) 255)
    × GrowsFalse [] (dwarfstring_append_printf_u zeroed_blocks dwarfstring_constructor none 255)
dwarfstring_append_printf_u-GrowsFalse_example =
    dwarfstring_append_printf_u-GrowsFalse zeroed_blocks dwarfstring_constructor [] (codes "n %08x")
      255 zeroed_blocks-IsAllocator dwarfstring_constructor-Holds (omega arith) (omega arith)

-- A line that is written, thrown away, and written again.
abbrev line_calls : List Call
line_calls =
    append (some (codes "name "))
    ∷ append_printf_s (some (codes "%-8s|")) (some (codes "abc"))
    ∷ reset
    ∷ append_printf_u (some (codes "0x%08x")) 48879
    ∷ append_printf_i none 3
    ∷ destructor
    ∷ append_length (some (codes "abc")) 2
    ∷ []

perform_all-Holds_example :
    (last : Dwarfstring) × (answers : List Bool) × (text' : List ℕ) × (perform_all zeroed_blocks
        line_calls dwarfstring_constructor
      ≡ some (last, answers))
    × (length answers ≡ length line_calls)
    × Holds last text'
    × (dwarfstring_strlen last ≡ length text')
perform_all-Holds_example =
    perform_all-Holds zeroed_blocks line_calls dwarfstring_constructor [] zeroed_blocks-IsAllocator
      (ground arith) dwarfstring_constructor-Holds

dwarfstring_append_printf_s-Grows_example :
    Grows [] (
      dwarfstring_append_printf_s zeroed_blocks dwarfstring_constructor
        (some (codes "[%-8s]"))
        (some (codes "abc")))
    × GrowsFalse [] (
        dwarfstring_append_printf_s zeroed_blocks dwarfstring_constructor none (some (codes "abc")))
    × GrowsFalse [] (
        dwarfstring_append_printf_s zeroed_blocks dwarfstring_constructor
          (some (codes "[%-8s]"))
          none)
dwarfstring_append_printf_s-Grows_example =
    dwarfstring_append_printf_s-Grows zeroed_blocks dwarfstring_constructor [] (codes "[%-8s]")
      (codes "abc") zeroed_blocks-IsAllocator dwarfstring_constructor-Holds (omega arith)
      (omega arith)

dwarfstring_append_printf_i-Grows_example :
    Grows []
      (dwarfstring_append_printf_i zeroed_blocks dwarfstring_constructor (some (codes "%+05d.")) 42)
    × GrowsFalse [] (dwarfstring_append_printf_i zeroed_blocks dwarfstring_constructor none 42)
dwarfstring_append_printf_i-Grows_example =
    dwarfstring_append_printf_i-Grows zeroed_blocks dwarfstring_constructor [] (codes "%+05d.") 42
      zeroed_blocks-IsAllocator dwarfstring_constructor-Holds (omega arith) (omega arith)

signed_digits_lem_example :
    (ds : List ℕ) × (signed_digits false (2 ^ 64 - 17) ≡ some (sign_of false (2 ^ 64 - 17) ++ ds))
    × (value_from 10 decimal_value 0 ds ≡ magnitude (2 ^ 64 - 17))
    × (1 ≤ length ds)
    × (length ds ≤ 20)
    × All IsDigit ds
signed_digits_lem_example = signed_digits_lem false (2 ^ 64 - 17) (omega arith)

decimal_digits-Digits_example : Digits 10 decimal_value dtable 20 2026 [] (decimal_digits 2026)
decimal_digits-Digits_example = decimal_digits-Digits 2026 (omega arith)

hex_digits-Digits_example :
    Digits 16 hex_value xtable 16 0xbeef [] (hex_digits xtable 0xbeef)
    × Digits 16 hex_value xtable_upper 16 0xbeef [] (hex_digits xtable_upper 0xbeef)
hex_digits-Digits_example = hex_digits-Digits 0xbeef (omega arith)

-- A name with a tab, a newline and a percent sign, and one with an escape character.
abbrev names : List (Option (List ℕ))
names = some (codes "a%b") ∷ none ∷ some (0x1b ∷ []) ∷ []

calls-map_example : calls 58 names (replicate 58 0) ≡ some (map (sanitized_text 58) names)
calls-map_example = calls-map 58 names (omega arith) (omega arith)

calls-IsVisible_example :
    (texts : List (List ℕ)) × (calls 58 names (replicate 58 0) ≡ some texts)
    × All (All IsVisible) texts
calls-IsVisible_example = calls-IsVisible 58 names (omega arith) (omega arith)

questionable : no_questionable_chars (0x1b ∷ 0x61 ∷ []) ≡ false
unfolding no_questionable_chars
questionable = refl

unescape-calls_example :
    (text : List ℕ) × (calls 58 (some (0x1b ∷ 0x61 ∷ []) ∷ []) (replicate 58 0) ≡ some (text ∷ []))
    × (unescape text ≡ 0x1b ∷ 0x61 ∷ [])
unfolding escape_all
unescape-calls_example =
    unescape-calls 58 (0x1b ∷ 0x61 ∷ []) (omega arith) (omega arith) (ground arith) questionable
      (omega arith)

uint64_add-error_iff_example :
    ((uint64_add (2 ^ 63) (2 ^ 63)).1 ≡ u64 (2 ^ 63 + 2 ^ 63))
    × (((uint64_add (2 ^ 63) (2 ^ 63)).0 ≡ dlv_error) ↔ (2 ^ 64 < 2 ^ 63 + 2 ^ 63))
uint64_add-error_iff_example = uint64_add-error_iff (2 ^ 63) (2 ^ 63) (omega arith) (omega arith)

uint64_mult-error_iff_example :
    ((uint64_mult (2 ^ 32) (2 ^ 32 + 1)).1 ≡ u64 (2 ^ 32 * (2 ^ 32 + 1)))
    × (((uint64_mult (2 ^ 32) (2 ^ 32 + 1)).0 ≡ dlv_error) ↔ (
        (2 ^ 64 < 2 ^ 32 * (2 ^ 32 + 1))
        × (u64 (2 ^ 32 * (2 ^ 32 + 1)) ≢ 0)
        × ((u64 (2 ^ 32 * (2 ^ 32 + 1)) < 2 ^ 32) ⊎ (u64 (2 ^ 32 * (2 ^ 32 + 1)) < 2 ^ 32 + 1))))
uint64_mult-error_iff_example = uint64_mult-error_iff (2 ^ 32) (2 ^ 32 + 1)

asnar-value_example :
    (asnar little_host (high_first_copy little_host) (1 ∷ 2 ∷ 3 ∷ 4 ∷ [])
      ≡ big_value_from 0 (1 ∷ 2 ∷ 3 ∷ 4 ∷ []))
    × (asnar little_host (low_first_copy little_host) (1 ∷ 2 ∷ 3 ∷ 4 ∷ [])
        ≡ little_value (1 ∷ 2 ∷ 3 ∷ 4 ∷ []))
asnar-value_example = asnar-value little_host (four 1 2 3 4)

magic_copy-value_example :
    (magic_copy (0xca ∷ 0xfe ∷ []) 2 ≡ 0xcafe)
    × (magic_copy (0xca ∷ 0xfe ∷ 0xba ∷ 0xbe ∷ []) 4 ≡ 0xcafebabe)
magic_copy-value_example =
    magic_copy-value 0xca 0xfe 0xba 0xbe [] (omega arith) (omega arith) (omega arith) (omega arith)

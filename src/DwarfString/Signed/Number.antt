-- ===== src/DwarfString/Signed/Number.antt =====
-- The text that `dwarfstring_append_printf_i` of src/dwarf_string.c makes of a number.
use readelfobj_code.Base.{
  ℕ, ◌-◌, ◌≤◌, ◌<◌, ◌^◌, ◌≡◌, inl, inr, refl, arith, Bool, true, false, some, List, [], ◌∷◌, ◌++◌,
  length, ltb, leb, ◌==◌, if◌then◌else◌, Bool-cases, All, All-map,
}
use mathlib.Core.List.{append-nil}
use readelfobj_code.Base.Text.{codes}
use readelfobj_code.DwarfString.Digits.{dtable}
use readelfobj_code.DwarfString.Digits.Value.{decimal_digits-Digits, decimal_value, value_from}
use readelfobj_code.DwarfString.Signed.{push_sign, signed_digits}

-- The sign that stands in front of a number: `-` for a negative one, `+` for another where asked.
abbrev pub sign_of : Bool → ℕ → List ℕ
sign_of plus v = if leb (2 ^ 63) v then 0x2d ∷ [] else if plus then 0x2b ∷ [] else []

-- The absolute value of a 64-bit pattern.
abbrev pub magnitude : ℕ → ℕ
magnitude v = if leb (2 ^ 63) v then 2 ^ 64 - v else v

-- A character from `0` to `9`.
abbrev pub IsDigit : ℕ → Type 0
IsDigit c = (0x30 ≤ c) × (c ≤ 0x39)

from_table : (ds : List ℕ) → All (λ c. (d : ℕ) × (d < 10) × (c ≡ dtable d)) ds → All IsDigit ds
unfolding dtable
from_table ds all = All-map (λ c (d, small, is). omega arith) ds all

-- For every 64-bit number, the least one included, the array is never left, and the text is its sign
-- and one to twenty decimal digits, and these are its absolute value as a decimal numeral.
pub signed_digits_lem :
    (plus : Bool) (v : ℕ)
    → v < 2 ^ 64
    → (ds : List ℕ) × (signed_digits plus v ≡ some (sign_of plus v ++ ds))
      × (value_from 10 decimal_value 0 ds ≡ magnitude v)
      × (1 ≤ length ds)
      × (length ds ≤ 20)
      × All IsDigit ds
unfolding signed_digits push_sign value_from
signed_digits_lem plus v h = elim (Bool-cases (v == 2 ^ 63)) [
  | inl e ↦
      let least : v ≡ 2 ^ 63 = ground arith in
      (
        codes "9223372036854775808",
        rw least refl,
        rw least refl,
        omega arith,
        omega arith,
        omega arith,
      )
  | inr e ↦ elim (Bool-cases (ltb (2 ^ 63) v)) [
    | inl n ↦
        let (ds, r, value, lo, hi, all) = decimal_digits-Digits (2 ^ 64 - v) (ground arith) in
        let negative : leb (2 ^ 63) v ≡ true = ground arith in
        let room : ltb (length ds) 35 ≡ true = ground arith in
        (
          ds,
          rw (e, n, negative, r, append-nil, room) refl,
          rw negative value,
          lo,
          hi,
          from_table ds all,
        )
    | inr n ↦
        let (ds, r, value, lo, hi, all) = decimal_digits-Digits v h in
        let positive : leb (2 ^ 63) v ≡ false = ground arith in
        let room : ltb (length ds) 35 ≡ true = ground arith in
        elim (Bool-cases plus) [
          | inl p ↦ (
            ds,
            rw (e, n, positive, p, r, append-nil, room) refl,
            rw positive value,
            lo,
            hi,
            from_table ds all,
          )
          | inr p ↦ (
            ds,
            rw (e, n, positive, p, r, append-nil) refl,
            rw positive value,
            lo,
            hi,
            from_table ds all,
          )
        ]
  ]
]

-- ===== src/DwarfString/Digits.antt =====
-- The digit buffers of src/dwarf_string.c: the loops that write a number from its last digit to its
-- first into an array of 36 bytes.
pub mod Value
use readelfobj_code.Base.{
  ℕ, zero, suc, ◌+◌, ◌/◌, ◌%◌, Option, none, some, List, [], ◌∷◌, bit_and, ltb, ◌==◌, if◌then◌else◌,
}

-- `dtable`, `xtable` and `Xtable` at an index.
unfoldable pub dtable : ℕ → ℕ
dtable d = 0x30 + d

unfoldable pub xtable : ℕ → ℕ
xtable d = if ltb d 10 then 0x30 + d else 0x57 + d

unfoldable pub xtable_upper : ℕ → ℕ
xtable_upper d = if ltb d 10 then 0x30 + d else 0x37 + d

-- The loop with `room` bytes from the start of the array up to `digptr`, itself included, and
-- `written` behind it. `none` is a write before the array.
unfoldable pub digit_loop : (ℕ → ℕ) → (ℕ → ℕ) → (ℕ → ℕ) → ℕ → ℕ → List ℕ → Option (List ℕ)
digit_loop table dig next zero remaining written = none
digit_loop table dig next (suc room) remaining written =
    let written' = table (dig remaining) ∷ written in
    let more = digit_loop table dig next room (next remaining) written' in
    if next remaining == 0 then some written' else more

-- `remaining % divisor` and `remaining /= divisor`, below a NUL at the end.
unfoldable pub decimal_digits : ℕ → Option (List ℕ)
unfolding digit_loop dtable
decimal_digits v = digit_loop dtable (λ n. n % 10) (λ n. n / 10) 35 v []

-- `remaining & 0xf` and `remaining >> 4`, from the last byte of the array.
unfoldable pub hex_digits : (ℕ → ℕ) → ℕ → Option (List ℕ)
unfolding digit_loop
hex_digits ctable v = digit_loop ctable (λ n. bit_and n 15) (λ n. n / 16) 36 v []

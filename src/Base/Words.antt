-- ===== src/Base/Words.antt =====
-- Machine words as native numbers: a word of 64 bits wraps by `%`, and a signed word is its bit
-- pattern, compared after the sign bit is flipped.
use Prim.Native.Nat.{ℕ, ◌+◌, ◌%◌, ◌^◌, ◌<◌}
use mathlib.Core.Bool.{Bool}
use readelfobj_code.Base.Tests.{ltb, leb}

-- `Dwarf_Unsigned`, `size_t` and `off_t` hold 64 bits.
abbrev pub u64 : ℕ → ℕ
u64 n = n % 2 ^ 64

abbrev pub u32 : ℕ → ℕ
u32 n = n % 2 ^ 32

abbrev pub IsU64 : ℕ → Type 0
IsU64 n = n < 2 ^ 64

abbrev pub IsByte : ℕ → Type 0
IsByte b = b < 256

-- The order of the integers that two 64-bit patterns stand for.
abbrev pub flip_sign : ℕ → ℕ
flip_sign n = (n + 2 ^ 63) % 2 ^ 64

abbrev pub ltb_signed : ℕ → ℕ → Bool
ltb_signed a b = ltb (flip_sign a) (flip_sign b)

abbrev pub leb_signed : ℕ → ℕ → Bool
leb_signed a b = leb (flip_sign a) (flip_sign b)

-- ===== src/SafeArithmetic/Overflow.antt =====
-- Which overflows the checks of src/dwarf_safe_arithmetic.c report.
use readelfobj_code.Base.{ℕ, suc, zero, ◌+◌, ◌*◌, ◌^◌, ◌≤◌, ◌<◌, ◌≡◌, ◌≢◌, ◌⊎◌, ◌↔◌, arith}
use readelfobj_code.Base.Words.{u64, IsU64}
use readelfobj_code.Codes.{dlv_ok, dlv_error}
use readelfobj_code.SafeArithmetic.{uint64_mult, uint64_add}

-- For two 64-bit operands the sum stored is the sum modulo 2^64, and an error is reported exactly
-- when the true sum is above 2^64.
pub uint64_add-error_iff :
    (l r : ℕ)
    → IsU64 l
    → IsU64 r
    → ((uint64_add l r).1 ≡ u64 (l + r)) × (((uint64_add l r).0 ≡ dlv_error) ↔ (2 ^ 64 < l + r))
unfolding uint64_add
uint64_add-error_iff l r hl hr = (ground arith, (ground arith, ground arith))

factors-le-mul : (x y : ℕ) → x * y ≢ 0 → (x ≤ x * y) × (y ≤ x * y)
factors-le-mul zero y h = absurd (h (omega arith))
factors-le-mul (suc x) zero h = absurd (h (omega arith))
factors-le-mul (suc x) (suc y) h = (omega arith, omega arith)

-- An error means that the true product is above 2^64.
mult-error-overflows : (x y : ℕ) → (uint64_mult x y).0 ≡ dlv_error → 2 ^ 64 < x * y
unfolding uint64_mult
mult-error-overflows x y h = ground (arith, factors-le-mul x y)

-- The product stored is the product modulo 2^64, and an error is reported exactly when the true
-- product is above 2^64 and what is left of it modulo 2^64 is not 0 and is below one of the factors.
pub uint64_mult-error_iff :
    (x y : ℕ)
    → ((uint64_mult x y).1 ≡ u64 (x * y))
      × (((uint64_mult x y).0 ≡ dlv_error)
          ↔ ((2 ^ 64 < x * y) × (u64 (x * y) ≢ 0) × ((u64 (x * y) < x) ⊎ (u64 (x * y) < y))))
unfolding uint64_mult
uint64_mult-error_iff x y = (
  ground arith,
  (λ h. (mult-error-overflows x y h, ground arith, ground arith), λ h. ground arith),
)

-- 2^63 times any odd number from 3 up to 2^63 overflows 64 bits, and is reported as a success with
-- the value 2^63.
pub uint64_mult_misses :
    (k : ℕ)
    → 1 ≤ k
    → 2 * k + 1 ≤ 2 ^ 63
    → (2 ^ 64 ≤ 2 ^ 63 * (2 * k + 1)) × (uint64_mult (2 ^ 63) (2 * k + 1) ≡ (dlv_ok, 2 ^ 63))
unfolding uint64_mult
uint64_mult_misses k h hk = (omega arith, ground arith)

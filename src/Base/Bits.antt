-- ===== src/Base/Bits.antt =====
-- `v << 8 | d` and `v & 0xf` as arithmetic, from the digit recursion of the native operations.
use Prim.Native.Nat.{digits, bit_or-bitwise, bit_and-bitwise}
use readelfobj_code.Base.{
  ℕ, zero, suc, ◌+◌, ◌*◌, ◌/◌, ◌%◌, ◌≤◌, ◌<◌, ◌≡◌, refl, arith, min, max, bit_or, bit_and,
}

-- More fuel than the first operand changes nothing.
fuel_enough :
    (z : ℕ → ℕ) (f : ℕ → ℕ → ℕ) (k l x y : ℕ) → x ≤ k → x ≤ l → digits z f k x y ≡ digits z f l x y
fuel_enough z f zero zero x y h h' = refl
fuel_enough z f zero (suc l) zero y h h' = refl
fuel_enough z f zero (suc l) (suc x) y h h' = absurd (omega arith)
fuel_enough z f (suc k) zero zero y h h' = refl
fuel_enough z f (suc k) zero (suc x) y h h' = absurd (omega arith)
fuel_enough z f (suc k) (suc l) zero y h h' = refl
fuel_enough z f (suc k) (suc l) (suc x) y h h' =
    omega (arith, fuel_enough z f k l (suc x / 2) (y / 2) (omega arith) (omega arith))

or_zero_left : (y : ℕ) → bit_or 0 y ≡ y
or_zero_left y = bit_or-bitwise 0 y

-- The lowest binary digit of a disjunction.
or_digit : (x y : ℕ) → bit_or x y ≡ bit_or (x / 2) (y / 2) * 2 + max (x % 2) (y % 2)
or_digit zero y = omega (arith, or_zero_left y, or_zero_left (y / 2))
or_digit (suc x) y = omega (
  arith,
  bit_or-bitwise (suc x) y,
  bit_or-bitwise (suc x / 2) (y / 2),
  fuel_enough (λ b. b) max x (suc x / 2) (suc x / 2) (y / 2) (omega arith) (omega arith),
)

and_zero_left : (y : ℕ) → bit_and 0 y ≡ 0
and_zero_left y = bit_and-bitwise 0 y

and_digit : (x y : ℕ) → bit_and x y ≡ bit_and (x / 2) (y / 2) * 2 + min (x % 2) (y % 2)
and_digit zero y = omega (arith, and_zero_left y, and_zero_left (y / 2))
and_digit (suc x) y = omega (
  arith,
  bit_and-bitwise (suc x) y,
  bit_and-bitwise (suc x / 2) (y / 2),
  fuel_enough (λ b. 0) min x (suc x / 2) (suc x / 2) (y / 2) (omega arith) (omega arith),
)

or_zero_below : (n x : ℕ) → x ≤ n → bit_or x 0 ≡ x
or_zero_below n zero h = refl
or_zero_below zero (suc x) h = absurd (omega arith)
or_zero_below (suc n) (suc x) h =
    omega (arith, or_digit (suc x) 0, or_zero_below n (suc x / 2) (omega arith))

and_zero_below : (n x : ℕ) → x ≤ n → bit_and x 0 ≡ 0
and_zero_below n zero h = refl
and_zero_below zero (suc x) h = absurd (omega arith)
and_zero_below (suc n) (suc x) h =
    omega (arith, and_digit (suc x) 0, and_zero_below n (suc x / 2) (omega arith))

-- An even number and any other, one digit at a time.
or_double : (x y : ℕ) → bit_or (x * 2) y ≡ bit_or x (y / 2) * 2 + y % 2
or_double x y =
    let half : x * 2 / 2 ≡ x = omega arith in rw (or_digit (x * 2) y, half) (omega arith)

-- Four digits, and then eight.
or_four : (x y : ℕ) → bit_or (x * 2 * 2 * 2 * 2) y ≡ bit_or x (y / 2 / 2 / 2 / 2) * 16 + y % 16
or_four x y = omega (
  arith,
  or_double (x * 2 * 2 * 2) y,
  or_double (x * 2 * 2) (y / 2),
  or_double (x * 2) (y / 2 / 2),
  or_double x (y / 2 / 2 / 2),
)

-- `(v << 8) | d` for a byte `d`.
pub bit_or_byte : (v d : ℕ) → d < 256 → bit_or (v * 256) d ≡ v * 256 + d
bit_or_byte v d h =
    let eight : v * 256 ≡ v * 2 * 2 * 2 * 2 * 2 * 2 * 2 * 2 = omega arith in
    let none_left : d / 2 / 2 / 2 / 2 / 2 / 2 / 2 / 2 ≡ 0 = omega arith in
    let low : bit_or v (d / 2 / 2 / 2 / 2 / 2 / 2 / 2 / 2) ≡ v =
      rw none_left (or_zero_below v v (omega arith)) in
    rw eight (omega (arith, or_four (v * 2 * 2 * 2 * 2) d, or_four v (d / 2 / 2 / 2 / 2), low))

-- `v & 0xf`
pub bit_and_nibble : (v : ℕ) → bit_and v 15 ≡ v % 16
bit_and_nibble v = omega (
  arith,
  and_digit v 15,
  and_digit (v / 2) 7,
  and_digit (v / 2 / 2) 3,
  and_digit (v / 2 / 2 / 2) 1,
  and_zero_below (v / 2 / 2 / 2 / 2) (v / 2 / 2 / 2 / 2) (omega arith),
)

-- ===== src/DwarfString/Digits/Value.antt =====
-- The digits that src/dwarf_string.c writes are the number's.
use readelfobj_code.Base.{
  ℕ, zero, suc, ◌+◌, ◌-◌, ◌*◌, ◌/◌, ◌%◌, ◌^◌, ◌≤◌, ◌<◌, ◌≡◌, inl, inr, refl, sym, ap, ◌∙◌, arith,
  Option, some, List, [], ◌∷◌, ◌++◌, bit_and, ltb, ◌==◌, if◌then◌else◌, true, false, Bool-cases,
  length, length-append, All, All-append,
}
use mathlib.Core.List.{append_assoc}
use mathlib.Core.Path.{subst}
use native.Mathlib.Nat.{pow-suc, pow-zero, div-add-mod', div-eq_of_lt, div-lt_iff_lt-mul, mod-lt}
use readelfobj_code.Base.Bits.{bit_and_nibble}
use readelfobj_code.DwarfString.Digits.{
  dtable, xtable, xtable_upper, digit_loop, decimal_digits, hex_digits,
}

-- The number that characters are in a base, by the value of each; `n` stands before them.
unfoldable pub value_from : ℕ → (ℕ → ℕ) → ℕ → List ℕ → ℕ
value_from base val n [] = n
value_from base val n (c ∷ s) = value_from base val (n * base + val c) s

value_from-append :
    (base : ℕ) (val : ℕ → ℕ) (n c : ℕ) (s : List ℕ)
    → value_from base val n (s ++ c ∷ []) ≡ value_from base val n s * base + val c
unfolding value_from
value_from-append base val n c [] = refl
value_from-append base val n c (d ∷ s) = value_from-append base val (n * base + val d) c s

-- What a digit loop leaves for `n`, in front of what was written before.
abbrev pub Digits : ℕ → (ℕ → ℕ) → (ℕ → ℕ) → ℕ → ℕ → List ℕ → Option (List ℕ) → Type 0
Digits base val table most n written result =
    (ds : List ℕ) × (result ≡ some (ds ++ written))
    × (value_from base val 0 ds ≡ n)
    × (1 ≤ length ds)
    × (length ds ≤ most)
    × All (λ c. (d : ℕ) × (d < base) × (c ≡ table d)) ds

module _ (base : ℕ) (table val dig next : ℕ → ℕ) (base_pos : 2 ≤ base)
    (digs : (n : ℕ) → dig n ≡ n % base) (nexts : (n : ℕ) → next n ≡ n / base)
    (vals : (d : ℕ) → d < base → val (table d) ≡ d) where
  digit_of : (n : ℕ) → (dig n < base) × (val (table (dig n)) ≡ n % base)
  digit_of n =
      let small : n % base < base = mod-lt n (omega arith) in
      (rw (digs n) small, rw (digs n) (vals (n % base) small))

  number_split : (n : ℕ) → n / base * base + n % base ≡ n
  number_split n = div-add-mod' n base

  last_digit :
      (n : ℕ) (written : List ℕ) (room : ℕ)
      → n / base ≡ 0
      → Digits base val table 1 n written (digit_loop table dig next (suc room) n written)
  unfolding digit_loop value_from
  last_digit n written room e =
      let d = digit_of n in
      let only : (next n == 0) ≡ true = ground (arith, nexts n) in
      (
        table (dig n) ∷ [],
        rw only,
        ap (λ t. 0 * base + t) d.1 ∙ ap (λ q. q * base + n % base) (sym e) ∙ number_split n,
        omega arith,
        omega arith,
        ((dig n, d.0, refl), tt),
      )

  more-Digits :
      (k n room : ℕ) (written : List ℕ)
      → (next n == 0) ≡ false
      → Digits base val table k
          (next n)
          (table (dig n) ∷ written)
          (digit_loop table dig next room (next n) (table (dig n) ∷ written))
      → Digits base val table (suc k) n written (digit_loop table dig next (suc room) n written)
  unfolding digit_loop
  more-Digits k n room written e (ds, r, v, lo, hi, all) =
      let last = table (dig n) ∷ [] in
      let d = digit_of n in
      (
        ds ++ last,
        rw e (r ∙ ap some (sym (append_assoc ds last written))),
        value_from-append base val 0 (table (dig n)) ds
            ∙ ap (λ t. t * base + val (table (dig n))) (v ∙ nexts n)
            ∙ ap (λ t. n / base * base + t) d.1
            ∙ number_split n,
        omega (arith, length-append ds last),
        omega (arith, length-append ds last),
        All-append (λ c. (d : ℕ) × (d < base) × (c ≡ table d)) ds last all ((dig n, d.0, refl), tt),
      )

  -- A number below the base to the power `k + 1` takes at most `k + 1` bytes of the array.
  pub digit_loop-Digits :
      (k n room : ℕ) (written : List ℕ)
      → n < base ^ suc k
      → k < room
      → Digits base val table (suc k) n written (digit_loop table dig next room n written)
  digit_loop-Digits k n zero written h hr = absurd (omega arith)
  digit_loop-Digits zero n (suc room) written h hr =
      let one_power : base ^ suc zero ≡ base =
        pow-suc base 0 ∙ ap (λ t. t * base) (pow-zero base) ∙ omega arith in
      last_digit n written room (div-eq_of_lt (subst (λ m. n < m) one_power h))
  digit_loop-Digits (suc k) n (suc room) written h hr =
      let in_room : k < room = omega arith in
      elim (Bool-cases (next n == 0)) [
        | inl e ↦
            let zero_next : n / base ≡ 0 = sym (nexts n) ∙ ground arith in
            let (ds, r, v, lo, hi, all) = last_digit n written room zero_next in
            (ds, r, v, lo, omega arith, all)
        | inr e ↦
            let small : n / base < base ^ suc k =
              (div-lt_iff_lt-mul (omega arith)).1 (subst (λ m. n < m) (pow-suc base (suc k)) h) in
            more-Digits (suc k) n room written e (
              digit_loop-Digits k (next n) room (table (dig n) ∷ written)
                (subst (λ m. m < base ^ suc k) (sym (nexts n)) small) in_room)
      ]

abbrev pub decimal_value : ℕ → ℕ
decimal_value c = c - 0x30

-- A lower or upper case digit.
abbrev pub hex_value : ℕ → ℕ
hex_value c = if ltb c 0x3a then c - 0x30 else if ltb c 0x60 then c - 0x37 else c - 0x57

-- The digits of any 64-bit number fit the array: the text is one to twenty characters, each of them
-- a decimal digit of `dtable`, and as a decimal numeral it is that number.
pub decimal_digits-Digits :
    (v : ℕ) → v < 2 ^ 64 → Digits 10 decimal_value dtable 20 v [] (decimal_digits v)
unfolding decimal_digits
decimal_digits-Digits v h =
    digit_loop-Digits 10 dtable decimal_value (λ n. n % 10) (λ n. n / 10) (omega arith) (λ n. refl)
      (λ n. refl) (λ d hd. omega arith) 19 v 35 [] (omega arith) (omega arith)

-- The digits of any 64-bit number fit the array, in lower and in upper case: the text is one to
-- sixteen characters, each of them a digit of the table, and as a hexadecimal numeral it is that
-- number.
pub hex_digits-Digits :
    (v : ℕ)
    → v < 2 ^ 64
    → Digits 16 hex_value xtable 16 v [] (hex_digits xtable v)
      × Digits 16 hex_value xtable_upper 16 v [] (hex_digits xtable_upper v)
unfolding hex_digits
hex_digits-Digits v h = (
  digit_loop-Digits 16 xtable hex_value (λ n. bit_and n 15) (λ n. n / 16) (omega arith)
      bit_and_nibble (λ n. refl) (λ d hd. unfold xtable in ground arith) 15 v 36 [] (omega arith)
      (omega arith),
  digit_loop-Digits 16 xtable_upper hex_value (λ n. bit_and n 15) (λ n. n / 16) (omega arith)
      bit_and_nibble (λ n. refl) (λ d hd. unfold xtable_upper in ground arith) 15 v 36 []
      (omega arith) (omega arith),
)

-- ===== src/Elf/Flags/Bits.antt =====
-- `getbitsoncount` of src/dwarf_load_elf_headers.c against the number of bits that are set.
use readelfobj_code.Base.{
  ℕ, zero, suc, ◌+◌, ◌/◌, ◌%◌, ◌^◌, ◌<◌, ◌≡◌, refl, ap, ◌∙◌, arith, inl, inr, some, bit_and,
  get_elem?, ◌==◌, if◌then◌else◌, Bool-cases,
}
use readelfobj_code.Base.Bits.{bit_and_nibble}
use readelfobj_code.Elf.Flags.{nibblecounts, count_nibbles, getbitsoncount}

-- The number of ones among the low `w` binary digits of `v`.
abbrev pub ones : ℕ → ℕ → ℕ
ones zero v = 0
ones (suc w) v = v % 2 + ones w (v / 2)

ones_zero : (w : ℕ) → ones w 0 ≡ 0
ones_zero zero = refl
ones_zero (suc w) = omega (arith, ones_zero w)

-- The table has 2 for the digit 8, which has one bit that is set.
abbrev is_eight : ℕ → ℕ
is_eight n = if n == 8 then 1 else 0

-- The digits to base 16 that are 8, among the low `k`.
abbrev pub eights : ℕ → ℕ → ℕ
eights zero v = 0
eights (suc k) v = is_eight (v % 16) + eights k (v / 16)

eights_zero : (k : ℕ) → eights k 0 ≡ 0
eights_zero zero = refl
eights_zero (suc k) = omega (arith, eights_zero k)

nibblecounts-ones : (n : ℕ) → n < 16 → get_elem? nibblecounts n ≡ some (ones 4 n + is_eight n)
nibblecounts-ones zero h = refl
nibblecounts-ones (suc zero) h = refl
nibblecounts-ones (suc (suc zero)) h = refl
nibblecounts-ones (suc (suc (suc zero))) h = refl
nibblecounts-ones (suc (suc (suc (suc zero)))) h = refl
nibblecounts-ones (suc (suc (suc (suc (suc zero))))) h = refl
nibblecounts-ones (suc (suc (suc (suc (suc (suc zero)))))) h = refl
nibblecounts-ones (suc (suc (suc (suc (suc (suc (suc zero))))))) h = refl
nibblecounts-ones (suc (suc (suc (suc (suc (suc (suc (suc zero)))))))) h = refl
nibblecounts-ones (suc (suc (suc (suc (suc (suc (suc (suc (suc zero))))))))) h = refl
nibblecounts-ones (suc (suc (suc (suc (suc (suc (suc (suc (suc (suc zero)))))))))) h = refl
nibblecounts-ones (suc (suc (suc (suc (suc (suc (suc (suc (suc (suc (suc zero))))))))))) h = refl
nibblecounts-ones (suc (suc (suc (suc (suc (suc (suc (suc (suc (suc (suc (suc zero)))))))))))) h =
    refl
nibblecounts-ones (suc (suc (suc (suc (suc (suc (suc (suc (suc (suc (suc (suc (suc zero)))))))))))))
      h =
    refl
nibblecounts-ones
      (suc (suc (suc (suc (suc (suc (suc (suc (suc (suc (suc (suc (suc (suc zero)))))))))))))) h =
    refl
nibblecounts-ones
      (suc (suc (suc (suc (suc (suc (suc (suc (suc (suc (suc (suc (suc (suc (suc zero)))))))))))))))
      h =
    refl
nibblecounts-ones
      (suc
        (suc (suc (suc (suc (suc (suc (suc (suc (suc (suc (suc (suc (suc (suc (suc n))))))))))))))))
      h =
    absurd (omega arith)

ones-nibble : (w v : ℕ) → ones 4 (v % 16) + ones w (v / 16) ≡ ones (suc (suc (suc (suc w)))) v
ones-nibble w v =
    let quarter : v / 16 ≡ v / 2 / 2 / 2 / 2 = omega arith in
    ap (λ k. ones 4 (v % 16) + ones w k) quarter ∙ omega arith

-- `v` has at most `k` digits to base 16.
abbrev Nibbles : ℕ → ℕ → Type 0
Nibbles zero v = v ≡ 0
Nibbles (suc k) v = Nibbles k (v / 16)

-- Four binary digits for each nibble.
abbrev nibbles_wide : ℕ → ℕ
nibbles_wide zero = 0
nibbles_wide (suc k) = suc (suc (suc (suc (nibbles_wide k))))

count_nibbles-ones :
    (k v c : ℕ)
    → Nibbles k v
    → count_nibbles (suc k) v c ≡ some (c + ones (nibbles_wide k) v + eights k v)
unfolding count_nibbles
count_nibbles-ones zero v c h = ground (arith, h)
count_nibbles-ones (suc k) v c h = elim (Bool-cases (v == 0)) [
  | inl z ↦
      let is_zero : v ≡ 0 = ground arith in
      rw (z, is_zero, ones_zero (nibbles_wide k), eights_zero k) (ap some (omega arith))
  | inr z ↦
      let nibble : bit_and v 15 ≡ v % 16 = bit_and_nibble v in
      let bits = nibblecounts-ones (v % 16) (omega arith) in
      let ih = count_nibbles-ones k (v / 16) (c + (ones 4 (v % 16) + is_eight (v % 16))) h in
      let sum = ones-nibble (nibbles_wide k) v in
      rw (z, nibble, bits) (ih ∙ ap some (omega (arith, sum)))
]

-- For a word of 64 bits the loop of `getbitsoncount` ends within 17 rounds, no index leaves the table
-- of nibbles, and the answer is the number of bits that are set and, on top of that, one for each
-- digit to base 16 that is 8.
pub getbitsoncount-ones : (v : ℕ) → v < 2 ^ 64 → getbitsoncount v ≡ some (ones 64 v + eights 16 v)
unfolding getbitsoncount
getbitsoncount-ones v h = count_nibbles-ones 16 v 0 (omega arith) ∙ ap some (omega arith)

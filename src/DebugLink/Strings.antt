-- ===== src/DebugLink/Strings.antt =====
-- `_dwarf_check_string_valid` of src/dwarf_debuglink.c against the strings that a block holds.
use readelfobj_code.Base.{
  ℕ, zero, suc, ◌-◌, ◌≤◌, ◌<◌, ◌≡◌, ◌≢◌, ◌⊎◌, inl, inr, refl, ap, arith, true, false, some, List,
  [], ◌∷◌, ◌++◌, length, length-drop, drop, All, ltb, leb, ◌==◌, if◌then◌else◌, Bool-cases,
}
use readelfobj_code.Base.Memory.{strlen}
use readelfobj_code.Codes.{ok, err, ErrCode}
use readelfobj_code.DebugLink.{meets_nul, dwarf_check_string_valid}

-- Characters before a NUL.
abbrev pub IsText : List ℕ → Type 0
IsText = All (λ c. c ≢ 0)

-- A text with its NUL among the first `n` bytes of memory.
abbrev pub StringWithin : List ℕ → ℕ → Type 0
StringWithin mem n =
    (name : List ℕ) × (rest : List ℕ) × (mem ≡ name ++ 0 ∷ rest) × IsText name × (length name < n)

StringWithin-tail :
    (c : ℕ) (mem : List ℕ) (n : ℕ) → c ≢ 0 → StringWithin (c ∷ mem) (suc n) → StringWithin mem n
StringWithin-tail c mem n h ([], rest, e, t, l) = absurd (h (cc))
StringWithin-tail c mem n h (d ∷ name, rest, e, t, l) = (name, rest, cc, t.1, omega arith)

pub meets_nul_lem :
    (mem : List ℕ) (n : ℕ)
    → n ≤ length mem
    → (meets_nul mem n ≡ some true) × StringWithin mem n
      ⊎ (meets_nul mem n ≡ some false) × ¬ StringWithin mem n
unfolding meets_nul
meets_nul_lem mem zero h = inr (refl, λ (name, rest, e, t, l). absurd (omega arith))
meets_nul_lem [] (suc n) h = absurd (omega arith)
meets_nul_lem (c ∷ mem) (suc n) h = elim (Bool-cases (c == 0)) [
  | inl z ↦
      let is_nul : c ≡ 0 = ground arith in
      inl (rw z refl, ([], mem, ap (λ x. x ∷ mem) is_nul, tt, omega arith))
  | inr z ↦
      let not_nul : c ≢ 0 = ground arith in
      elim (meets_nul_lem mem n (omega arith)) [
        | inl (e, (name, rest, d, t, l)) ↦
            inl (rw z e, (c ∷ name, rest, ap (◌∷◌ c) d, (not_nul, t), omega arith))
        | inr (e, no_string) ↦ inr (rw z e, λ s. no_string (StringWithin-tail c mem n not_nul s))
      ]
]

-- The bytes behind the ones that are looked at do not matter.
pub meets_nul-append :
    (mem more : List ℕ) (n : ℕ) → n ≤ length mem → meets_nul (mem ++ more) n ≡ meets_nul mem n
unfolding meets_nul
meets_nul-append mem more zero h = refl
meets_nul-append [] more (suc n) h = absurd (omega arith)
meets_nul-append (c ∷ mem) more (suc n) h =
    ap (λ x. if c == 0 then some true else x) (meets_nul-append mem more n (omega arith))

pub strlen-append :
    (name rest : List ℕ) → IsText name → strlen (name ++ 0 ∷ rest) ≡ some (length name)
unfolding strlen
strlen-append [] rest t = refl
strlen-append (c ∷ name) rest t = ground (arith, strlen-append name rest t.1, t.0)

-- With an end inside the block the check never leaves it. It is `DW_DLV_OK` exactly when the string
-- pointer is not before the area and a text with its NUL stands from there on before the end; in
-- any other case it is an error with the code that the caller suggested.
pub dwarf_check_string_valid_iff :
    (block : List ℕ) (start p end_at : ℕ) (code : ErrCode)
    → end_at ≤ length block
    → (dwarf_check_string_valid block start p end_at code ≡ some (ok tt))
        × (start ≤ p)
        × StringWithin (drop p block) (end_at - p)
      ⊎ (dwarf_check_string_valid block start p end_at code ≡ some (err code))
        × ¬ ((start ≤ p) × StringWithin (drop p block) (end_at - p))
unfolding dwarf_check_string_valid
dwarf_check_string_valid_iff block start p end_at code h = elim (Bool-cases (ltb p start)) [
  | inl a ↦ inr (rw a refl, λ (s, _). ground arith)
  | inr a ↦ elim (Bool-cases (leb end_at p)) [
    | inl b ↦ inr (rw (a, b) refl, λ (_, (name, _, _, _, l)). ground arith)
    | inr b ↦
        elim (meets_nul_lem (drop p block) (end_at - p) (omega (arith, length-drop p block))) [
          | inl (e, s) ↦ inl (rw (a, b, e) refl, (ground arith), s)
          | inr (e, no_string) ↦ inr (rw (a, b, e) refl, λ (_, s). no_string s)
        ]
  ]
]

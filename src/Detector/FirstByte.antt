-- ===== src/Detector/FirstByte.antt =====
-- The signatures of src/dwarf_object_detector.c differ in their first byte.
use readelfobj_code.Base.{
  ℕ, ◌≤◌, ◌≡◌, ◌≢◌, ◌⊎◌, inl, inr, arith, false, List, ◌∷◌, take, length, All, none, Bool-cases,
  Option-cases,
}
use readelfobj_code.Base.Words.{IsByte}
use readelfobj_code.Bytes.{byte}
use readelfobj_code.Detector.{
  Endian, is_elf_ident, is_mach_o_magic, is_mach_o_universal, is_archive_magic,
}
use readelfobj_code.Detector.Magic.{
  is_mach_o_magic_iff, is_mach_o_universal_iff, is_archive_magic_iff,
}
use readelfobj_code.Detector.Signature.{IsDosSignature, IsMachO, IsUniversal}

-- The first byte alone tells the signatures apart.
pub not_elf : (h : List ℕ) → byte h 0 ≢ 0x7f → is_elf_ident h ≡ false
not_elf h n = ground arith

abbrev pub IsFatByte : ℕ → Type 0
IsFatByte a = (a ≡ 0xca) ⊎ (a ≡ 0xbe) ⊎ (a ≡ 0xbf)

abbrev pub IsMachByte : ℕ → Type 0
IsMachByte a = (a ≡ 0xfe) ⊎ (a ≡ 0xce) ⊎ (a ≡ 0xcf)

pub fat_byte :
    (a : ℕ) (r : List ℕ) {e : Endian} {size : ℕ} → IsUniversal (take 4 (a ∷ r)) e size → IsFatByte a
fat_byte a r u = ground arith

pub mach_byte :
    (a : ℕ) (r : List ℕ) {e : Endian} {size : ℕ} → IsMachO (take 4 (a ∷ r)) e size → IsMachByte a
mach_byte a r u = ground arith

pub dos_byte :
    (a : ℕ) (r : List ℕ) {e : Endian} → IsDosSignature e (take 2 (a ∷ r)) → (a ≡ 0x4d) ⊎ (a ≡ 0x5a)
dos_byte a r d = ground arith

pub not_archive : (a : ℕ) (r : List ℕ) → a ≢ 0x21 → is_archive_magic (a ∷ r) ≡ false
not_archive a r n = elim (Bool-cases (is_archive_magic (a ∷ r))) [
  | inl e ↦ let t = (is_archive_magic_iff (a ∷ r)).0 e in ground arith
  | inr e ↦ e
]

module _ (a : ℕ) (r : List ℕ) (n : 4 ≤ length (a ∷ r)) (b : All IsByte (a ∷ r)) where
  pub not_universal : ¬ IsFatByte a → is_mach_o_universal (a ∷ r) ≡ none
  not_universal no_fat = elim (Option-cases (is_mach_o_universal (a ∷ r))) [
    | inl e ↦ e
    | inr ((e, size), u) ↦
        absurd (no_fat (fat_byte a r ((is_mach_o_universal_iff (a ∷ r) e size n b).0 u)))
  ]

  pub not_mach : ¬ IsMachByte a → is_mach_o_magic (a ∷ r) ≡ none
  not_mach no_mach = elim (Option-cases (is_mach_o_magic (a ∷ r))) [
    | inl e ↦ e
    | inr ((e, size), u) ↦
        absurd (no_mach (mach_byte a r ((is_mach_o_magic_iff (a ∷ r) e size n b).0 u)))
  ]

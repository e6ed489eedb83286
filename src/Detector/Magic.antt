-- ===== src/Detector/Magic.antt =====
-- The tests of src/dwarf_object_detector.c on the first bytes of a header decide the signatures.
use readelfobj_code.Base.{
  ℕ, ◌+◌, ◌*◌, ◌≤◌, ◌≡◌, refl, ◌↔◌, arith, true, List, [], ◌∷◌, take, length, All, some,
}
use readelfobj_code.Base.Words.{IsByte}
use readelfobj_code.Bytes.{magic_copy}
use readelfobj_code.Bytes.Order.{magic_copy-value}
use readelfobj_code.Codes.{ok}
use readelfobj_code.Detector.{
  Endian, fill_in_elf_fields, is_mach_o_magic, is_mach_o_universal, is_magic_prefix,
  is_archive_magic, is_elf_ident, archive_magic,
}
use readelfobj_code.Detector.Signature.{IsElf, IsMachO, IsUniversal}

-- The number that the first four bytes of a header are.
magic_copy_four :
    (a b c d : ℕ) (rest : List ℕ)
    → All IsByte (a ∷ b ∷ c ∷ d ∷ rest)
    → magic_copy (a ∷ b ∷ c ∷ d ∷ rest) 4 ≡ ((a * 256 + b) * 256 + c) * 256 + d
magic_copy_four a b c d rest h = (magic_copy-value a b c d rest h.0 h.1.0 h.1.1.0 h.1.1.1.0).1

-- On a header of bytes, at least four long, `is_mach_o_magic` answers TRUE and stores a byte order
-- and an offset size exactly when the first four bytes are the magic number for these.
pub is_mach_o_magic_iff :
    (h : List ℕ) (e : Endian) (size : ℕ)
    → 4 ≤ length h
    → All IsByte h
    → (is_mach_o_magic h ≡ some (e, size)) ↔ IsMachO (take 4 h) e size
unfolding is_mach_o_magic
is_mach_o_magic_iff (a ∷ b ∷ c ∷ d ∷ rest) e size n h =
    let m = magic_copy_four a b c d rest h in (λ p. ground arith, λ p. ground arith)
is_mach_o_magic_iff _ e size n h = absurd (omega arith)

-- On a header of bytes, at least four long, `is_mach_o_universal` answers TRUE and stores a byte
-- order and an offset size exactly when the first four bytes are the magic number of a universal
-- binary for these.
pub is_mach_o_universal_iff :
    (h : List ℕ) (e : Endian) (size : ℕ)
    → 4 ≤ length h
    → All IsByte h
    → (is_mach_o_universal h ≡ some (e, size)) ↔ IsUniversal (take 4 h) e size
unfolding is_mach_o_universal
is_mach_o_universal_iff (a ∷ b ∷ c ∷ d ∷ rest) e size n h =
    let m = magic_copy_four a b c d rest h in (λ p. ground arith, λ p. ground arith)
is_mach_o_universal_iff _ e size n h = absurd (omega arith)

is_magic_prefix_iff : (ms cp : List ℕ) → (is_magic_prefix ms cp ≡ true) ↔ (take (length ms) cp ≡ ms)
unfolding is_magic_prefix
is_magic_prefix_iff [] cp = (λ _. refl, λ _. refl)
is_magic_prefix_iff (m ∷ ms) [] = (λ p. cc, λ p. cc)
is_magic_prefix_iff (m ∷ ms) (c ∷ cp) =
    let ih = is_magic_prefix_iff ms cp in (λ p. ground (arith, ih.0), λ p. ground (arith, ih.1))

-- `is_archive_magic` holds exactly of the headers that start with `!<arch>` and a newline.
pub is_archive_magic_iff : (h : List ℕ) → (is_archive_magic h ≡ true) ↔ (take 8 h ≡ archive_magic)
unfolding is_archive_magic
is_archive_magic_iff h = is_magic_prefix_iff archive_magic h

-- On a header at least four long, the test on the first four bytes holds and `fill_in_elf_fields`
-- stores a byte order and an offset size exactly when the header is an Elf identification with
-- these.
pub fill_in_elf_fields_iff :
    (h : List ℕ) (e : Endian) (size : ℕ)
    → 4 ≤ length h
    → (is_elf_ident h ≡ true) × (fill_in_elf_fields h ≡ ok (e, size)) ↔ IsElf h e size
unfolding fill_in_elf_fields
fill_in_elf_fields_iff (a ∷ b ∷ c ∷ d ∷ rest) e size n = (
  λ p. record {
    magic = ground arith;
    class_is = ground arith;
    data_is = ground arith;
    version_is = ground arith;
  },
  λ p. ground arith,
)
fill_in_elf_fields_iff _ e size n = absurd (omega arith)

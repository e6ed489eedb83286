-- ===== src/Detector/Signature.antt =====
-- The magic bytes of each kind of object file, apart from the code of src/dwarf_object_detector.c.
use readelfobj_code.Base.{ℕ, ◌+◌, ◌≤◌, ◌≡◌, ◌⊎◌, List, [], ◌∷◌, take, length}
use readelfobj_code.Bytes.{byte, little_value, big_value_from}
use readelfobj_code.Detector.{
  Endian, endian_big, endian_little, FileType, ftype_unknown, ftype_elf, ftype_mach_o, ftype_pe,
  ftype_archive, ftype_appleuniversal, Detected, archive_magic,
}
use readelfobj_code.ObjectRead.Ranges.{slice}

-- An Elf identification: the class byte gives the offset size, the data byte the byte order, and
-- the version is 1.
pub record IsElf (h : List ℕ) (e : Endian) (size : ℕ) : Type 0 where
  pub magic : take 4 h ≡ 0x7f ∷ 0x45 ∷ 0x4c ∷ 0x46 ∷ []
  pub class_is : (byte h 4 ≡ 1) × (size ≡ 32) ⊎ (byte h 4 ≡ 2) × (size ≡ 64)
  pub data_is : (byte h 5 ≡ 1) × (e ≡ endian_little) ⊎ (byte h 5 ≡ 2) × (e ≡ endian_big)
  pub version_is : byte h 6 ≡ 1

-- The four magic numbers of a Mach-O header, in file order.
abbrev pub IsMachO : List ℕ → Endian → ℕ → Type 0
IsMachO s e size =
    (s ≡ 0xfe ∷ 0xed ∷ 0xfa ∷ 0xce ∷ []) × (e ≡ endian_big) × (size ≡ 32)
    ⊎ (s ≡ 0xce ∷ 0xfa ∷ 0xed ∷ 0xfe ∷ []) × (e ≡ endian_little) × (size ≡ 32)
    ⊎ (s ≡ 0xfe ∷ 0xed ∷ 0xfa ∷ 0xcf ∷ []) × (e ≡ endian_big) × (size ≡ 64)
    ⊎ (s ≡ 0xcf ∷ 0xfa ∷ 0xed ∷ 0xfe ∷ []) × (e ≡ endian_little) × (size ≡ 64)

-- The four magic numbers of a universal binary, in file order.
abbrev pub IsUniversal : List ℕ → Endian → ℕ → Type 0
IsUniversal s e size =
    (s ≡ 0xca ∷ 0xfe ∷ 0xba ∷ 0xbe ∷ []) × (e ≡ endian_big) × (size ≡ 32)
    ⊎ (s ≡ 0xbe ∷ 0xba ∷ 0xfe ∷ 0xca ∷ []) × (e ≡ endian_little) × (size ≡ 32)
    ⊎ (s ≡ 0xca ∷ 0xfe ∷ 0xba ∷ 0xbf ∷ []) × (e ≡ endian_big) × (size ≡ 64)
    ⊎ (s ≡ 0xbf ∷ 0xba ∷ 0xfe ∷ 0xca ∷ []) × (e ≡ endian_little) × (size ≡ 64)

-- The number that bytes are in a byte order.
unfoldable pub word : Endian → List ℕ → ℕ
unfolding little_value big_value_from
word endian_big s = big_value_from 0 s
word _ s = little_value s

abbrev pub IsMachine : ℕ → ℕ → Type 0
IsMachine size m = (size ≡ 32) × (m ≡ 0x14c) ⊎ (size ≡ 64) × ((m ≡ 0x200) ⊎ (m ≡ 0x8664))

abbrev pub IsDosSignature : Endian → List ℕ → Type 0
IsDosSignature e s =
    (e ≡ endian_little) × (s ≡ 0x4d ∷ 0x5a ∷ []) ⊎ (e ≡ endian_big) × (s ≡ 0x5a ∷ 0x4d ∷ [])

-- A PE object at the start of the file `bytes`. The address of the NT header stands at offset 60.
pub record IsPe (bytes : List ℕ) (e : Endian) (size : ℕ) : Type 0 where
  pub nt : ℕ
  pub long_enough : 88 ≤ length bytes
  pub dos : IsDosSignature e (slice bytes 0 2)
  pub address : nt ≡ word e (slice bytes 60 4)
  pub inside : nt + 24 ≤ length bytes
  pub signature : word e (slice bytes nt 4) ≡ 0x4550
  pub machine : IsMachine size (word e (slice bytes (nt + 4) 2))

-- The header at the base offset, or for a PE object the file, carries the signature of `d`. An
-- archive has no byte order and no offset size of its own: those are the caller's.
abbrev pub Describes : List ℕ → List ℕ → Endian → ℕ → Detected → FileType → Type 0
Describes bytes h e0 size0 d ftype_unknown = ⊥
Describes bytes h e0 size0 d ftype_elf = IsElf h d.endian d.offsetsize
Describes bytes h e0 size0 d ftype_mach_o = IsMachO (take 4 h) d.endian d.offsetsize
Describes bytes h e0 size0 d ftype_pe = IsPe bytes d.endian d.offsetsize
Describes bytes h e0 size0 d ftype_archive =
    (take 8 h ≡ archive_magic) × (d.endian ≡ e0) × (d.offsetsize ≡ size0)
Describes bytes h e0 size0 d ftype_appleuniversal = IsUniversal (take 4 h) d.endian d.offsetsize

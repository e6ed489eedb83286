-- ===== src/Detector.antt =====
-- src/dwarf_object_detector.c: which kind of object file stands at an offset of an open file, its
-- byte order and its offset size. The bytes of `struct elf_header`, `struct dos_header` and
-- `struct pe_image_file_header` are lists of 24, 64 and 20 bytes.
pub mod Signature
pub mod Magic
pub mod Pe
pub mod FirstByte
pub mod Sound
pub mod Path
use readelfobj_code.Base.{
  ℕ, ◌+◌, ◌-◌, ◌<◌, ◌≤◌, Bool, true, false, not, ◌&&◌, ◌||◌, Option, none, some, List, [], ◌∷◌,
  take, drop, length, ltb, leb, ◌==◌, if◌then◌else◌,
}
use readelfobj_code.Base.Words.{u64}
use readelfobj_code.Bytes.{
  byte, WordSwap, plain, swapping, Host, little_host, big_host, asnar, magic_copy,
}
use readelfobj_code.Codes.{
  Result, ok, err, no_entry, ◌>>=◌, ErrCode, err_seek, err_read, err_toosmall, err_elf_version,
  err_elf_class, err_elf_endian, err_not_a_known_type, no_dos_header, no_nt_signature,
}
use readelfobj_code.ObjectRead.{Descriptor, object_read_random}

-- DW_ENDIAN_BIG and the rest.
pub data Endian : Type 0 where
  endian_unknown endian_big endian_little endian_same endian_opposite : Endian

-- DW_FTYPE_ELF and the rest.
pub data FileType : Type 0 where
  ftype_unknown ftype_elf ftype_mach_o ftype_pe ftype_archive ftype_appleuniversal : FileType

-- What a successful call stores through `ftype`, `endian`, `offsetsize` and `filesize`.
pub record Detected : Type 0 where
  pub ftype : FileType
  pub endian : Endian
  pub offsetsize : ℕ
  pub filesize : ℕ

-- The class, the data encoding and the version of an Elf header.
abbrev pub ident_offsetsize : ℕ → Result ℕ
ident_offsetsize c = if c == 1 then ok 32 else if c == 2 then ok 64 else err err_elf_class

abbrev pub ident_endian : ℕ → Result Endian
ident_endian d =
    if d == 1 then ok endian_little else if d == 2 then ok endian_big else err err_elf_endian

unfoldable pub fill_in_elf_fields : List ℕ → Result (Endian × ℕ)
fill_in_elf_fields h = do
  locoffsetsize ← ident_offsetsize (byte h 4)
  locendian ← ident_endian (byte h 5)
  if not (byte h 6 == 1) then err err_elf_version else ok (locendian, locoffsetsize)

-- `!<arch>` and a newline.
abbrev pub archive_magic : List ℕ
archive_magic = 0x21 ∷ 0x3c ∷ 0x61 ∷ 0x72 ∷ 0x63 ∷ 0x68 ∷ 0x3e ∷ 0x0a ∷ []

-- The comparison, byte by byte, with the magic bytes that are left.
unfoldable pub is_magic_prefix : List ℕ → List ℕ → Bool
is_magic_prefix [] cp = true
is_magic_prefix (m ∷ ms) [] = false
is_magic_prefix (m ∷ ms) (c ∷ cp) = if not (c == m) then false else is_magic_prefix ms cp

unfoldable pub is_archive_magic : List ℕ → Bool
unfolding is_magic_prefix
is_archive_magic h = is_magic_prefix archive_magic h

-- The first two bytes of a DOS header choose the copy for its words and the byte order.
unfoldable pub dos_signature : Host → ℕ → Result (WordSwap × Endian)
dos_signature host dos_sig =
    if dos_sig == 0x5a4d
    then ok (elim host [ little_host ↦ swapping | big_host ↦ plain ], endian_big)
    else if dos_sig == 0x4d5a
    then ok (elim host [ little_host ↦ plain | big_host ↦ swapping ], endian_little)
    else err no_dos_header

-- The machines that are known: I386, IA64 and AMD64.
unfoldable pub pe_offsetsize : ℕ → Result ℕ
pe_offsetsize machine =
    if machine == 0x14c
    then ok 32
    else if machine == 0x200 || machine == 0x8664
    then ok 64
    else err err_not_a_known_type

-- A test that ends a function with an error.
abbrev pub refuse_if : Bool → ErrCode → Result (Unit {0})
refuse_if true e = err e
refuse_if false e = ok tt

-- The part of `is_pe_object` behind the DOS header, at the address that the header gives.
unfoldable pub read_nt_header : Host → Descriptor → ℕ → WordSwap → Endian → ℕ → Result (Endian × ℕ)
read_nt_header host fd filesize word_swap locendian nt_address = do
  _ ← refuse_if (ltb filesize nt_address) err_toosmall
  _ ← refuse_if (ltb filesize (u64 (nt_address + 4 + 20))) err_toosmall
  nt_sig_array ← object_read_random fd nt_address 4 filesize
  _ ← refuse_if (not (asnar host word_swap nt_sig_array == 0x4550)) no_nt_signature
  ifh ← object_read_random fd (nt_address + 4) 20 filesize
  offsetsize ← pe_offsetsize (asnar host word_swap (take 2 ifh))
  ok (locendian, offsetsize)

unfoldable pub is_pe_object : Host → Descriptor → ℕ → Result (Endian × ℕ)
is_pe_object host fd filesize = do
  _ ← refuse_if (ltb filesize (64 + 4 + 20)) err_toosmall
  dhinmem ← object_read_random fd 0 64 filesize
  (word_swap, locendian) ← dos_signature host (magic_copy (take 2 dhinmem) 2)
  read_nt_header host fd filesize word_swap locendian
      (asnar host word_swap (take 4 (drop 60 dhinmem)))

-- `none` is FALSE, with nothing stored.
unfoldable pub is_mach_o_universal : List ℕ → Option (Endian × ℕ)
is_mach_o_universal h =
    let magicval = magic_copy h 4 in
    if magicval == 0xcafe_babe
    then some (endian_big, 32)
    else if magicval == 0xbeba_feca
    then some (endian_little, 32)
    else if magicval == 0xcafe_babf
    then some (endian_big, 64)
    else if magicval == 0xbfba_feca
    then some (endian_little, 64)
    else none

unfoldable pub is_mach_o_magic : List ℕ → Option (Endian × ℕ)
is_mach_o_magic h =
    let magicval = magic_copy h 4 in
    if magicval == 0xfeed_face
    then some (endian_big, 32)
    else if magicval == 0xcefa_edfe
    then some (endian_little, 32)
    else if magicval == 0xfeed_facf
    then some (endian_big, 64)
    else if magicval == 0xcffa_edfe
    then some (endian_little, 64)
    else none

-- `h.e_ident[0] == 0x7f && … == 'E' && … == 'L' && … == 'F'`
abbrev pub is_elf_ident : List ℕ → Bool
is_elf_ident h = byte h 0 == 0x7f && byte h 1 == 0x45 && byte h 2 == 0x4c && byte h 3 == 0x46

abbrev detected : FileType → ℕ → Endian × ℕ → Detected
detected ftype fsize (endian, offsetsize) = record {
  ftype = ftype;
  endian = endian;
  offsetsize = offsetsize;
  filesize = fsize;
}

-- The tests on the header that was read, in their order. The caller's `endian` and `offsetsize`
-- stay as they are for an archive.
unfoldable pub classify_header : Host → Descriptor → Endian → ℕ → List ℕ → ℕ → Result Detected
classify_header host fd endian offsetsize h fsize =
    if is_elf_ident h
    then fill_in_elf_fields h >>= (λ p. ok (detected ftype_elf fsize p))
    else elim (is_mach_o_universal h) [
      | some p ↦ ok (detected ftype_appleuniversal fsize p)
      | none ↦ elim (is_mach_o_magic h) [
        | some p ↦ ok (detected ftype_mach_o fsize p)
        | none ↦
            if is_archive_magic h
            then ok (detected ftype_archive fsize (endian, offsetsize))
            else is_pe_object host fd fsize >>= (λ p. ok (detected ftype_pe fsize p))
      ]
    ]

-- `readval != (ssize_t)readlen`
abbrev header_read : Option (List ℕ) → Result (List ℕ)
header_read none = err err_read
header_read (some h) = if not (length h == 24) then err err_read else ok h

abbrev or_seek_error : Option ℕ → Result ℕ
or_seek_error none = err err_seek
or_seek_error (some pos) = if leb 0x8000_0000_0000_0000 pos then err err_seek else ok pos

unfoldable pub dwarf_object_detector_fd_a : Host → Descriptor → Endian → ℕ → ℕ → Result Detected
dwarf_object_detector_fd_a host fd endian offsetsize fileoffsetbase = do
  fsize ← or_seek_error fd.lseek_end
  let remaininglen = u64 (fsize + 0x1_0000_0000_0000_0000 - fileoffsetbase)
  _ ← refuse_if (leb fsize fileoffsetbase) err_seek
  _ ← refuse_if (leb remaininglen 24) err_toosmall
  lsval ← or_seek_error (fd.lseek_set fileoffsetbase)
  h ← header_read (fd.read lsval 24)
  classify_header host fd endian offsetsize h fsize

unfoldable pub dwarf_object_detector_fd : Host → Descriptor → Endian → ℕ → Result Detected
unfolding dwarf_object_detector_fd_a
dwarf_object_detector_fd host fd endian offsetsize =
    dwarf_object_detector_fd_a host fd endian offsetsize 0

-- ===== src/Elf/Headers/Kept.antt =====
-- The Elf header that src/dwarf_load_elf_headers.c keeps, against the bytes of the file.
use readelfobj_code.Base.{
  ℕ, ◌+◌, ◌≤◌, ◌<◌, ◌^◌, ◌≡◌, refl, sym, ap, ◌∙◌, arith, take-drop-take, inl, inr, true, false, not,
  List, [], ◌∷◌, ◌++◌, length, ltb, leb, ◌==◌, Bool-cases,
}
use mathlib.Core.Path.{subst}
use readelfobj_code.Base.Words.{u64}
use readelfobj_code.Bytes.{Host}
use readelfobj_code.Codes.{ok}
use readelfobj_code.Elf.{GenericEhdr, ElfFiledata, InUse, dwarf_insert_in_use_entry}
use readelfobj_code.Elf.Layout.{words_at, header_sizes, header_words}
use readelfobj_code.Elf.Headers.{
  words_of_ehdr32, words_of_ehdr64, mark_extended, generic_ehdr_of, generic_ehdr_from_32,
  generic_ehdr_from_64, elf_load_elf_header32, elf_load_elf_header64,
}
use readelfobj_code.ObjectRead.{Descriptor, IsFile, dwarf_object_read_random}
use readelfobj_code.ObjectRead.Ranges.{slice, dwarf_object_read_random-inside}

-- What is kept of a header of `size` bytes with these words behind `ident`. With the section headers
-- behind the header, each count is marked as the header's own or as one that section zero has.
pub record HasHeader (size align : ℕ) (ident words : List ℕ) (entries : List InUse)
    (after : ElfFiledata) : Type 0 where
  pub ident_is : after.f_ehdr.ge_ident ≡ ident
  pub words_are : header_words after.f_ehdr ≡ words
  pub machine : after.f_machine ≡ after.f_ehdr.ge_machine
  pub place :
      after.f_loc_ehdr
      ≡ record { g_offset = 0; g_count = 1; g_entrysize = size; g_totalsize = size }
  pub ident_kept : size ≤ after.f_ehdr.ge_shoff → after.f_ident ≡ ident
  pub shnum_marks :
      size ≤ after.f_ehdr.ge_shoff
      → (after.f_ehdr.ge_shnum_extended ≡ (after.f_ehdr.ge_shnum == 0))
        × (after.f_ehdr.ge_shnum_in_shnum ≡ not after.f_ehdr.ge_shnum_extended)
  pub strndx_marks :
      size ≤ after.f_ehdr.ge_shoff
      → (after.f_ehdr.ge_strndx_extended ≡ (after.f_ehdr.ge_shstrndx == 0xffff))
        × (after.f_ehdr.ge_strndx_in_strndx ≡ not after.f_ehdr.ge_strndx_extended)
  pub no_marks :
      after.f_ehdr.ge_shoff < size
      → (after.f_ehdr.ge_shnum_extended ≡ false)
        × (after.f_ehdr.ge_shnum_in_shnum ≡ false)
        × (after.f_ehdr.ge_strndx_extended ≡ false)
        × (after.f_ehdr.ge_strndx_in_strndx ≡ false)
  pub in_use :
      after.f_in_use
      ≡ entries ++ record { u_offset = 0; u_align = align; u_length = size; u_lastbyte = size } ∷ []

-- A header as it is copied from the file has no marks yet.
Unmarked : GenericEhdr → Type 0
Unmarked e =
    (e.ge_shnum_extended ≡ false)
    × (e.ge_shnum_in_shnum ≡ false)
    × (e.ge_strndx_extended ≡ false)
    × (e.ge_strndx_in_strndx ≡ false)

generic_ehdr_of-HasHeader :
    (size align : ℕ) (ehdr : GenericEhdr) (ep : ElfFiledata)
    → size < 2 ^ 64
    → Unmarked ehdr
    → HasHeader size align ehdr.ge_ident
        (header_words ehdr)
        ep.f_in_use
        (dwarf_insert_in_use_entry (generic_ehdr_of ep ehdr size) 0 size align)
unfolding generic_ehdr_of mark_extended dwarf_insert_in_use_entry Unmarked
generic_ehdr_of-HasHeader size align ehdr ep small unmarked =
    let ends : u64 (0 + size) ≡ size = omega arith in
    elim (Bool-cases (ltb ehdr.ge_shoff size)) [
      | inl z ↦ rw z (record {
        ident_is = refl;
        words_are = refl;
        machine = refl;
        place = refl;
        ident_kept = λ h. absurd (ground arith);
        shnum_marks = λ h. absurd (ground arith);
        strndx_marks = λ h. absurd (ground arith);
        no_marks = λ h. unmarked;
        in_use = rw ends refl;
      })
      | inr z ↦ rw z (record {
        ident_is = refl;
        words_are = refl;
        machine = refl;
        place = refl;
        ident_kept = λ h. refl;
        shnum_marks = λ h. (refl, refl);
        strndx_marks = λ h. (refl, refl);
        no_marks = λ h. absurd (ground arith);
        in_use = rw ends refl;
      })
    ]

module _ (host : Host) (fd : Descriptor) (bytes : List ℕ) (file : IsFile fd bytes)
    (ep : ElfFiledata) (is_fd : ep.f_fd ≡ fd) (is_size : ep.f_filesize ≡ length bytes) where
  start_of_file :
      (size : ℕ)
      → 1 ≤ size
      → size < length bytes
      → size ≤ 64
      → dwarf_object_read_random ep.f_fd 0 size ep.f_filesize ≡ ok (slice bytes 0 size)
  start_of_file size some_bytes long small =
      let file' : IsFile ep.f_fd bytes = subst (λ d. IsFile d bytes) (sym is_fd) file in
      ap (λ n. dwarf_object_read_random ep.f_fd 0 size n) is_size
      ∙ dwarf_object_read_random-inside ep.f_fd bytes file' 0 size some_bytes (omega arith)
          (omega arith)

  elf_load_elf_header32-HasHeader :
      52 < length bytes
      → (after : ElfFiledata) × (elf_load_elf_header32 host true ep ≡ (after, ok tt))
        × HasHeader 52 4
            (slice bytes 0 16)
            (words_at host ep.f_copy_word (header_sizes 4) 16 (slice bytes 0 52))
            ep.f_in_use
            after
  unfolding elf_load_elf_header32 generic_ehdr_from_32 words_of_ehdr32 Unmarked
  elf_load_elf_header32-HasHeader long =
      let fits : leb ep.f_filesize 52 ≡ false = ground arith in
      let got = start_of_file 52 (omega arith) long (omega arith) in
      let words = words_of_ehdr32 host ep.f_copy_word (slice bytes 0 52) in
      (
        dwarf_insert_in_use_entry (generic_ehdr_from_32 host ep (slice bytes 0 52)) 0 52 4,
        rw (fits, got) refl,
        subst
            (λ i.
              HasHeader 52 4 i (words_at host ep.f_copy_word (header_sizes 4) 16 (slice bytes 0 52))
                ep.f_in_use
                (dwarf_insert_in_use_entry (generic_ehdr_from_32 host ep (slice bytes 0 52)) 0 52
                  4))
            (take-drop-take 16 0 52 bytes (omega arith))
            (generic_ehdr_of-HasHeader 52 4 words ep (omega arith) (refl, refl, refl, refl)),
      )

  elf_load_elf_header64-HasHeader :
      64 < length bytes
      → (after : ElfFiledata) × (elf_load_elf_header64 host true ep ≡ (after, ok tt))
        × HasHeader 64 8
            (slice bytes 0 16)
            (words_at host ep.f_copy_word (header_sizes 8) 16 (slice bytes 0 64))
            ep.f_in_use
            after
  unfolding elf_load_elf_header64 generic_ehdr_from_64 words_of_ehdr64 Unmarked
  elf_load_elf_header64-HasHeader long =
      let fits : leb ep.f_filesize 64 ≡ false = ground arith in
      let got = start_of_file 64 (omega arith) long (omega arith) in
      let words = words_of_ehdr64 host ep.f_copy_word (slice bytes 0 64) in
      (
        dwarf_insert_in_use_entry (generic_ehdr_from_64 host ep (slice bytes 0 64)) 0 64 8,
        rw (fits, got) refl,
        subst
            (λ i.
              HasHeader 64 8 i (words_at host ep.f_copy_word (header_sizes 8) 16 (slice bytes 0 64))
                ep.f_in_use
                (dwarf_insert_in_use_entry (generic_ehdr_from_64 host ep (slice bytes 0 64)) 0 64
                  8))
            (take-drop-take 16 0 64 bytes (omega arith))
            (generic_ehdr_of-HasHeader 64 8 words ep (omega arith) (refl, refl, refl, refl)),
      )

  -- For a file of more than 64 bytes, and with memory, `elf_load_elf_header32` and
  -- `elf_load_elf_header64` are `DW_DLV_OK`. `e_ident` is the first 16 bytes of the file, and the other
  -- words are those that stand one behind the other behind it, in the order and the sizes of the
  -- structure, up to byte 52 or 64. With the section headers behind the header, the section count is
  -- marked as extended exactly when it is 0, and the index of the section names when it is 0xffff; else
  -- nothing is marked. The machine and the header's place are kept, and the header is noted as in use.
  pub elf_load_elf_header-HasHeader :
      64 < length bytes
      → ((after : ElfFiledata) × (elf_load_elf_header32 host true ep ≡ (after, ok tt))
          × HasHeader 52 4
              (slice bytes 0 16)
              (words_at host ep.f_copy_word (header_sizes 4) 16 (slice bytes 0 52))
              ep.f_in_use
              after)
        × ((after : ElfFiledata) × (elf_load_elf_header64 host true ep ≡ (after, ok tt))
            × HasHeader 64 8
                (slice bytes 0 16)
                (words_at host ep.f_copy_word (header_sizes 8) 16 (slice bytes 0 64))
                ep.f_in_use
                after)
  elf_load_elf_header-HasHeader long =
      (elf_load_elf_header32-HasHeader (omega arith), elf_load_elf_header64-HasHeader long)

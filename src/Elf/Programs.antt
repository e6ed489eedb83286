-- ===== src/Elf/Programs.antt =====
-- The program headers of src/dwarf_load_elf_headers.c. What the functions for the two sizes share takes
-- the structure's size and its copy.
pub mod Segments
pub mod Within
use readelfobj_code.Base.{
  ℕ, zero, suc, ◌+◌, ◌*◌, Bool, true, false, ◌&&◌, ◌||◌, not, Option, none, some, List, [], ◌∷◌,
  length, take, drop, ltb, leb, ◌==◌, if◌then◌else◌,
}
use readelfobj_code.Base.Memory.{◌>>=◌, array_of, next_element, store_all}
use readelfobj_code.Base.Words.{u64}
use readelfobj_code.Bytes.{Host, WordSwap}
use readelfobj_code.Codes.{Result, ok, err, no_entry, err_malloc, err_toosmall, err_file_offset_bad}
use readelfobj_code.Elf.{GenericPhdr, Location, ElfFiledata, dwarf_insert_in_use_entry}
use readelfobj_code.Elf.Headers.{word_of}
use readelfobj_code.Elf.Sections.{Platform, struct_at}
use readelfobj_code.ObjectRead.{dwarf_object_read_random}

-- `dw_elf32_phdr` of src/dw_elfstructs.h.
unfoldable pub words_of_phdr32 : Host → WordSwap → List ℕ → GenericPhdr
words_of_phdr32 host copy pph = record {
  gp_type = word_of host copy pph 0 4;
  gp_flags = word_of host copy pph 24 4;
  gp_offset = word_of host copy pph 4 4;
  gp_vaddr = word_of host copy pph 8 4;
  gp_paddr = word_of host copy pph 12 4;
  gp_filesz = word_of host copy pph 16 4;
  gp_memsz = word_of host copy pph 20 4;
  gp_align = word_of host copy pph 28 4;
}

-- `dw_elf64_phdr` of src/dw_elfstructs.h.
unfoldable pub words_of_phdr64 : Host → WordSwap → List ℕ → GenericPhdr
words_of_phdr64 host copy pph = record {
  gp_type = word_of host copy pph 0 4;
  gp_flags = word_of host copy pph 4 4;
  gp_offset = word_of host copy pph 8 8;
  gp_vaddr = word_of host copy pph 16 8;
  gp_paddr = word_of host copy pph 24 8;
  gp_filesz = word_of host copy pph 32 8;
  gp_memsz = word_of host copy pph 40 8;
  gp_align = word_of host copy pph 48 8;
}

-- What a call returns: one of the three values, or another number.
pub data Returned : Type 0 where
  returns : (answer : Result (Unit {0})) → Returned
  returns_number : (n : ℕ) → Returned

-- The entry for a segment's bytes, when it has a place or a size.
abbrev pub insert_segment : ElfFiledata → GenericPhdr → ElfFiledata
insert_segment ep gphdr =
    if not (gphdr.gp_offset == 0) || not (gphdr.gp_filesz == 0)
    then dwarf_insert_in_use_entry ep gphdr.gp_offset gphdr.gp_filesz gphdr.gp_align
    else ep

module _ (words_of_phdr : List ℕ → GenericPhdr) (sizeof_phdr : ℕ) (no_memory : Returned) where
  -- The rounds of the loop that are left, with `pph` at the header's bytes, and `room` elements of the
  -- generic array.
  unfoldable pub phdr_loop : ElfFiledata → ℕ → List ℕ → ℕ → Option (ElfFiledata × List GenericPhdr)
  phdr_loop ep room pph zero = some (ep, [])
  phdr_loop ep room pph (suc rounds) = struct_at sizeof_phdr pph >>= λ s.
      next_element room >>= λ left.
      phdr_loop (insert_segment ep (words_of_phdr s)) left (drop sizeof_phdr pph) rounds
      >>= λ (ep', rest). some (ep', words_of_phdr s ∷ rest)

  -- `no_memory` is what is returned without memory.
  unfoldable pub generic_phdr_from :
      Platform → ElfFiledata → ℕ → ℕ → ℕ → Option (ElfFiledata × Returned)
  unfolding phdr_loop
  generic_phdr_from given ep offset entsize count = elim (given.calloc count entsize) [
    | none ↦ some (ep, no_memory)
    | some block ↦ elim (array_of given.has_room count) [
      | none ↦ some (ep, no_memory)
      | some room ↦
          elim (dwarf_object_read_random ep.f_fd offset (u64 (count * entsize)) ep.f_filesize) [
            | no_entry ↦ some (ep, returns no_entry)
            | err code ↦ some (ep, returns (err code))
            | ok bytes ↦ store_all block 0 bytes >>= λ filled.
                phdr_loop ep room filled count >>= λ (ep', phdrs). some (
                  record ep' {
                    f_phdr = phdrs;
                    f_loc_phdr = record {
                      g_offset = offset;
                      g_count = count;
                      g_entrysize = sizeof_phdr;
                      g_totalsize = u64 (sizeof_phdr * count);
                    };
                  },
                  returns (ok tt),
                )
          ]
    ]
  ]

  -- A count that is stored is the one that is asked for, so the test that they are the same is not
  -- here.
  unfoldable pub load_progheaders :
      Platform → ElfFiledata → ℕ → ℕ → ℕ → Option (ElfFiledata × Returned)
  unfolding generic_phdr_from dwarf_insert_in_use_entry
  load_progheaders given ep offset entsize count =
      if count == 0
      then some (ep, returns no_entry)
      else if ltb entsize sizeof_phdr
      then some (ep, returns (err err_toosmall))
      else if ltb ep.f_filesize offset
          || ltb 200 entsize
          || ltb ep.f_filesize count
          || ltb ep.f_filesize (u64 (count * entsize + offset))
      then some (ep, returns (err err_file_offset_bad))
      else (generic_phdr_from given ep offset entsize count >>= λ (ep', res). elim res [
        | returns_number n ↦ some (ep', returns_number n)
        | returns answer ↦ elim answer [
          | no_entry ↦ some (ep', returns no_entry)
          | err code ↦ some (ep', returns (err code))
          | ok done ↦
              some
                (dwarf_insert_in_use_entry ep' offset (u64 (entsize * count)) 4, returns (ok done))
        ]
      ])

unfoldable pub elf_load_progheaders32 :
    Host → Platform → ElfFiledata → ℕ → ℕ → ℕ → Option (ElfFiledata × Returned)
unfolding load_progheaders words_of_phdr32
elf_load_progheaders32 host given ep offset entsize count =
    load_progheaders (words_of_phdr32 host ep.f_copy_word) 32 (returns (err err_malloc)) given ep
      offset entsize count

-- Without memory `RO_ERR_MALLOC`, 4, is returned here, and no code is stored.
unfoldable pub elf_load_progheaders64 :
    Host → Platform → ElfFiledata → ℕ → ℕ → ℕ → Option (ElfFiledata × Returned)
unfolding load_progheaders words_of_phdr64
elf_load_progheaders64 host given ep offset entsize count =
    load_progheaders (words_of_phdr64 host ep.f_copy_word) 56 (returns_number 4) given ep offset
      entsize count

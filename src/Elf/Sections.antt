-- ===== src/Elf/Sections.antt =====
-- The section headers of src/dwarf_load_elf_headers.c. The functions for the two sizes differ in the
-- structure that they read, so what they share takes the structure's size and its copy.
pub mod Table
pub mod Inside
pub mod Loads
use readelfobj_code.Base.{
  ℕ, zero, suc, ◌+◌, ◌*◌, Bool, true, false, ◌&&◌, ◌||◌, not, Option, none, some, List, [], ◌∷◌,
  length, take, drop, ltb, leb, ◌==◌, if◌then◌else◌,
}
use readelfobj_code.Base.Memory.{◌>>=◌, array_of, next_element, store_all}
use readelfobj_code.Base.Words.{u64}
use readelfobj_code.Bytes.{Host, WordSwap}
use readelfobj_code.Codes.{
  Result, ok, err, no_entry, err_malloc, err_toosmall, err_file_offset_bad, err_shdr_count_mismatch,
}
use readelfobj_code.Elf.{
  GenericEhdr, GenericShdr, zero_shdr, Location, ElfFiledata, dwarf_insert_in_use_entry,
}
use readelfobj_code.Elf.Flags.{is_empty_section}
use readelfobj_code.Elf.Headers.{word_of}
use readelfobj_code.ObjectRead.{dwarf_object_read_random}

-- `dw_elf32_shdr` of src/dw_elfstructs.h.
unfoldable pub copysection32 : Host → WordSwap → GenericShdr → List ℕ → GenericShdr
copysection32 host copy gshdr psh = record gshdr {
  gh_name = word_of host copy psh 0 4;
  gh_type = word_of host copy psh 4 4;
  gh_flags = word_of host copy psh 8 4;
  gh_addr = word_of host copy psh 12 4;
  gh_offset = word_of host copy psh 16 4;
  gh_size = word_of host copy psh 20 4;
  gh_link = word_of host copy psh 24 4;
  gh_info = word_of host copy psh 28 4;
  gh_addralign = word_of host copy psh 32 4;
  gh_entsize = word_of host copy psh 36 4;
}

-- `dw_elf64_shdr` of src/dw_elfstructs.h.
unfoldable pub copysection64 : Host → WordSwap → GenericShdr → List ℕ → GenericShdr
copysection64 host copy gshdr psh = record gshdr {
  gh_name = word_of host copy psh 0 4;
  gh_type = word_of host copy psh 4 4;
  gh_flags = word_of host copy psh 8 8;
  gh_addr = word_of host copy psh 16 8;
  gh_offset = word_of host copy psh 24 8;
  gh_size = word_of host copy psh 32 8;
  gh_link = word_of host copy psh 40 4;
  gh_info = word_of host copy psh 44 4;
  gh_addralign = word_of host copy psh 48 8;
  gh_entsize = word_of host copy psh 56 8;
}

-- What the library gives: `calloc(count,size)`, whether it has an array of `count` generic headers,
-- and the int that `lseek(fd,offset,SEEK_CUR)` is stored as, as a word of 64 bits.
pub record Platform : Type 0 where
  pub calloc : ℕ → ℕ → Option (List ℕ)
  pub has_room : ℕ → Bool
  pub lseek_cur : ℕ → ℕ

-- The structure of `size` bytes that the pointer points to.
abbrev pub struct_at : ℕ → List ℕ → Option (List ℕ)
struct_at size mem = if leb size (length mem) then some (take size mem) else none

-- The entry for a section's bytes.
abbrev pub insert_target : ElfFiledata → GenericShdr → ElfFiledata
insert_target ep gshdr =
    if is_empty_section gshdr.gh_type
    then ep
    else dwarf_insert_in_use_entry ep gshdr.gh_offset gshdr.gh_size gshdr.gh_addralign

module _ (copysection : GenericShdr → List ℕ → GenericShdr) (sizeof_shdr : ℕ) where
  -- One header of the file, the one with index `i`.
  abbrev pub header_of : ℕ → ℕ → ℕ → List ℕ → GenericShdr
  header_of fdoffset entsize i psh =
      copysection (record zero_shdr { gh_secnum = i; gh_fdoffset = u64 (fdoffset + i * entsize) })
        psh

  -- The rounds of the loop from index `i` on, with `psh` at the header's bytes, and `room` elements of
  -- the generic array from there on.
  unfoldable pub shdr_loop :
      ℕ → ElfFiledata → ℕ → List ℕ → ℕ → ℕ → Option (ElfFiledata × List GenericShdr)
  shdr_loop entsize ep room psh i zero = some (ep, [])
  shdr_loop entsize ep room psh i (suc rounds) = struct_at sizeof_shdr psh >>= λ s.
      next_element room >>= λ left.
      let gshdr = header_of ep.f_fdoffset entsize i s in
      shdr_loop entsize (insert_target ep gshdr) left (drop sizeof_shdr psh) (i + 1) rounds
      >>= λ (ep', rest). some (ep', gshdr ∷ rest)

  unfoldable pub generic_shdr_from :
      Platform → ElfFiledata → ℕ → ℕ → ℕ → Option (ElfFiledata × Result ℕ)
  unfolding shdr_loop
  generic_shdr_from given ep offset entsize count = elim (given.calloc count entsize) [
    | none ↦ some (ep, err err_malloc)
    | some block ↦ elim (array_of given.has_room count) [
      | none ↦ some (ep, err err_malloc)
      | some room ↦
          let ep' = record ep { f_fdoffset = given.lseek_cur offset } in
          elim (dwarf_object_read_random ep.f_fd offset (u64 (count * entsize)) ep.f_filesize) [
            | no_entry ↦ some (ep', no_entry)
            | err code ↦ some (ep', err code)
            | ok bytes ↦ store_all block 0 bytes >>= λ filled.
                shdr_loop entsize ep' room filled 0 count >>= λ (ep'', shdrs). some (
                  record ep'' {
                    f_shdr = shdrs;
                    f_loc_shdr = record {
                      g_offset = offset;
                      g_count = count;
                      g_entrysize = sizeof_shdr;
                      g_totalsize = u64 (sizeof_shdr * count);
                    };
                  },
                  ok count,
                )
          ]
    ]
  ]

  -- What is left when the counts are known.
  unfoldable pub load_counted :
      Platform → ElfFiledata → ℕ → ℕ → ℕ → ℕ → Option (ElfFiledata × Result (Unit {0}))
  unfolding generic_shdr_from dwarf_insert_in_use_entry
  load_counted given ep offset entsize finalcount align =
      if finalcount == 0
      then some (ep, no_entry)
      else if ltb entsize sizeof_shdr
      then some (ep, err err_toosmall)
      else if ltb ep.f_filesize offset
          || ltb 200 entsize
          || ltb ep.f_filesize finalcount
          || ltb ep.f_filesize (u64 (finalcount * entsize + offset))
      then some (ep, err err_file_offset_bad)
      else (generic_shdr_from given ep offset entsize finalcount >>= λ (ep', res). elim res [
        | no_entry ↦ some (ep', no_entry)
        | err code ↦ some (ep', err code)
        | ok generic_count ↦ some (
            if generic_count == finalcount
            then (dwarf_insert_in_use_entry ep' offset (u64 (entsize * finalcount)) align, ok tt)
            else (ep', err err_shdr_count_mismatch))
      ])

-- The index of the section that has the names.
abbrev pub set_index : ElfFiledata → Option ℕ → ElfFiledata
set_index ep (some index) = record ep { f_elf_shstrings_sect_index = index }
set_index ep none = record ep { f_elf_shstrings_sect_index = ep.f_ehdr.ge_shstrndx }

abbrev pub count_or : ℕ → Option ℕ → ℕ
count_or finalcount (some count) = count
count_or finalcount none = finalcount

-- The header with the counts of section zero in place of the ones that it extends.
abbrev pub extended_ehdr : GenericEhdr → GenericShdr → GenericEhdr
extended_ehdr geh shdg =
    let counted =
      if geh.ge_shnum_extended
      then record geh { ge_shnum = shdg.gh_size; ge_shnum_in_shnum = true }
      else geh in
    if geh.ge_strndx_extended
    then record counted { ge_shstrndx = shdg.gh_link; ge_strndx_in_strndx = true }
    else counted

-- The section count and the index of the section names, where the call finds them.
unfoldable pub get_counts_from_sec32_zero :
    Host → ElfFiledata → ℕ → Result (GenericEhdr × Option ℕ × Option ℕ)
unfolding copysection32
get_counts_from_sec32_zero host ep offset =
    elim (dwarf_object_read_random ep.f_fd offset 40 ep.f_filesize) [
      | no_entry ↦ no_entry
      | err code ↦ err code
      | ok shd32 ↦
          let geh = extended_ehdr ep.f_ehdr (copysection32 host ep.f_copy_word zero_shdr shd32) in
          ok (
            geh,
            if geh.ge_shnum_extended then some geh.ge_shnum else none,
            if geh.ge_strndx_extended then some geh.ge_shstrndx else none,
          )
    ]

-- The function for 64 bits always finds both.
unfoldable pub get_counts_from_sec64_zero :
    Host → ElfFiledata → ℕ → Result (GenericEhdr × Option ℕ × Option ℕ)
unfolding copysection64
get_counts_from_sec64_zero host ep offset =
    elim (dwarf_object_read_random ep.f_fd offset 64 ep.f_filesize) [
      | no_entry ↦ no_entry
      | err code ↦ err code
      | ok shd64 ↦
          let geh = extended_ehdr ep.f_ehdr (copysection64 host ep.f_copy_word zero_shdr shd64) in
          ok (geh, some geh.ge_shnum, some geh.ge_shstrndx)
    ]

-- The counts, and then `load`, which is given the final one.
abbrev pub with_counts :
    ElfFiledata
    → Result (GenericEhdr × Option ℕ × Option ℕ)
    → (ElfFiledata → ℕ → Option (ElfFiledata × Result (Unit {0})))
    → Option (ElfFiledata × Result (Unit {0}))
with_counts ep counts load =
    if ep.f_ehdr.ge_shnum_in_shnum && ep.f_ehdr.ge_strndx_in_strndx
    then load (set_index ep none) ep.f_ehdr.ge_shnum
    else elim counts [
      | no_entry ↦ some (ep, no_entry)
      | err code ↦ some (ep, err code)
      | ok (geh, count, index) ↦
          load (set_index (record ep { f_ehdr = geh }) index) (count_or ep.f_ehdr.ge_shnum count)
    ]

unfoldable pub elf_load_sectheaders32 :
    Host → Platform → ElfFiledata → ℕ → ℕ → Option (ElfFiledata × Result (Unit {0}))
unfolding get_counts_from_sec32_zero load_counted
elf_load_sectheaders32 host given ep offset entsize =
    with_counts ep (get_counts_from_sec32_zero host ep offset) (λ ep' finalcount.
      load_counted (copysection32 host ep.f_copy_word) 40 given ep' offset entsize finalcount 4)

unfoldable pub elf_load_sectheaders64 :
    Host → Platform → ElfFiledata → ℕ → ℕ → Option (ElfFiledata × Result (Unit {0}))
unfolding get_counts_from_sec64_zero load_counted
elf_load_sectheaders64 host given ep offset entsize =
    with_counts ep (get_counts_from_sec64_zero host ep offset) (λ ep' finalcount.
      load_counted (copysection64 host ep.f_copy_word) 64 given ep' offset entsize finalcount 8)

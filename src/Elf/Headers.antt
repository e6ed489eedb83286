-- ===== src/Elf/Headers.antt =====
-- The Elf header of src/dwarf_load_elf_headers.c: its words, and the extensions that stand in section
-- zero. Messages to the user are not modelled.
pub mod Kept
use readelfobj_code.Base.{ℕ, Bool, false, not, List, take, drop, ltb, leb, ◌==◌, if◌then◌else◌}
use readelfobj_code.Bytes.{Host, WordSwap, asnar}
use readelfobj_code.Codes.{Result, ok, err, no_entry, err_malloc}
use readelfobj_code.Elf.{GenericEhdr, ElfFiledata, dwarf_insert_in_use_entry}
use readelfobj_code.ObjectRead.{dwarf_object_read_random}

-- The word of `size` bytes at `offset` of a structure.
abbrev pub word_of : Host → WordSwap → List ℕ → ℕ → ℕ → ℕ
word_of host copy e offset size = asnar host copy (take size (drop offset e))

-- `dw_elf32_ehdr` of src/dw_elfstructs.h.
unfoldable pub words_of_ehdr32 : Host → WordSwap → List ℕ → GenericEhdr
words_of_ehdr32 host copy e = record {
  ge_ident = take 16 e;
  ge_type = word_of host copy e 16 2;
  ge_machine = word_of host copy e 18 2;
  ge_version = word_of host copy e 20 4;
  ge_entry = word_of host copy e 24 4;
  ge_phoff = word_of host copy e 28 4;
  ge_shoff = word_of host copy e 32 4;
  ge_flags = word_of host copy e 36 4;
  ge_ehsize = word_of host copy e 40 2;
  ge_phentsize = word_of host copy e 42 2;
  ge_phnum = word_of host copy e 44 2;
  ge_shentsize = word_of host copy e 46 2;
  ge_shnum = word_of host copy e 48 2;
  ge_shnum_in_shnum = false;
  ge_shnum_extended = false;
  ge_shstrndx = word_of host copy e 50 2;
  ge_strndx_in_strndx = false;
  ge_strndx_extended = false;
}

-- `dw_elf64_ehdr` of src/dw_elfstructs.h.
unfoldable pub words_of_ehdr64 : Host → WordSwap → List ℕ → GenericEhdr
words_of_ehdr64 host copy e = record {
  ge_ident = take 16 e;
  ge_type = word_of host copy e 16 2;
  ge_machine = word_of host copy e 18 2;
  ge_version = word_of host copy e 20 4;
  ge_entry = word_of host copy e 24 8;
  ge_phoff = word_of host copy e 32 8;
  ge_shoff = word_of host copy e 40 8;
  ge_flags = word_of host copy e 48 4;
  ge_ehsize = word_of host copy e 52 2;
  ge_phentsize = word_of host copy e 54 2;
  ge_phnum = word_of host copy e 56 2;
  ge_shentsize = word_of host copy e 58 2;
  ge_shnum = word_of host copy e 60 2;
  ge_shnum_in_shnum = false;
  ge_shnum_extended = false;
  ge_shstrndx = word_of host copy e 62 2;
  ge_strndx_in_strndx = false;
  ge_strndx_extended = false;
}

-- Where the counts stand: in the header, or in section zero for a string section of `SHN_XINDEX`,
-- 0xffff, and for no sections.
unfoldable pub mark_extended : GenericEhdr → GenericEhdr
mark_extended ehdr =
    let extended = ehdr.ge_shstrndx == 0xffff in
    record ehdr {
      ge_strndx_extended = extended;
      ge_strndx_in_strndx = not extended;
      ge_shnum_extended = ehdr.ge_shnum == 0;
      ge_shnum_in_shnum = not (ehdr.ge_shnum == 0);
    }

-- What is kept of a header of `size` bytes.
abbrev pub keep_ehdr : ElfFiledata → GenericEhdr → ℕ → ElfFiledata
keep_ehdr ep ehdr size = record ep {
  f_ehdr = ehdr;
  f_machine = ehdr.ge_machine;
  f_loc_ehdr = record { g_offset = 0; g_count = 1; g_entrysize = size; g_totalsize = size };
}

-- The steps that are the same for both sizes. With the sections inside the header or absent, the
-- header is kept as it is.
unfoldable pub generic_ehdr_of : ElfFiledata → GenericEhdr → ℕ → ElfFiledata
unfolding mark_extended
generic_ehdr_of ep ehdr size =
    if ltb ehdr.ge_shoff size
    then keep_ehdr ep ehdr size
    else keep_ehdr (record ep { f_ident = ehdr.ge_ident }) (mark_extended ehdr) size

unfoldable pub generic_ehdr_from_32 : Host → ElfFiledata → List ℕ → ElfFiledata
unfolding generic_ehdr_of words_of_ehdr32
generic_ehdr_from_32 host ep e = generic_ehdr_of ep (words_of_ehdr32 host ep.f_copy_word e) 52

unfoldable pub generic_ehdr_from_64 : Host → ElfFiledata → List ℕ → ElfFiledata
unfolding generic_ehdr_of words_of_ehdr64
generic_ehdr_from_64 host ep e = generic_ehdr_of ep (words_of_ehdr64 host ep.f_copy_word e) 64

-- `granted` says whether `calloc` has a block for the generic header.
unfoldable pub elf_load_elf_header32 : Host → Bool → ElfFiledata → ElfFiledata × Result (Unit {0})
unfolding generic_ehdr_from_32 dwarf_insert_in_use_entry
elf_load_elf_header32 host granted ep =
    if leb ep.f_filesize 52
    then (ep, no_entry)
    else elim (dwarf_object_read_random ep.f_fd 0 52 ep.f_filesize) [
      | no_entry ↦ (ep, no_entry)
      | err code ↦ (ep, err code)
      | ok e ↦
          if granted
          then (dwarf_insert_in_use_entry (generic_ehdr_from_32 host ep e) 0 52 4, ok tt)
          else (ep, err err_malloc)
    ]

unfoldable pub elf_load_elf_header64 : Host → Bool → ElfFiledata → ElfFiledata × Result (Unit {0})
unfolding generic_ehdr_from_64 dwarf_insert_in_use_entry
elf_load_elf_header64 host granted ep =
    if leb ep.f_filesize 64
    then (ep, no_entry)
    else elim (dwarf_object_read_random ep.f_fd 0 64 ep.f_filesize) [
      | no_entry ↦ (ep, no_entry)
      | err code ↦ (ep, err code)
      | ok e ↦
          if granted
          then (dwarf_insert_in_use_entry (generic_ehdr_from_64 host ep e) 0 64 8, ok tt)
          else (ep, err err_malloc)
    ]

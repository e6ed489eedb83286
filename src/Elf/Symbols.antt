-- ===== src/Elf/Symbols.antt =====
-- The symbols of src/dwarf_load_elf_headers.c. What a function stores through `gsym_out` and
-- `count_out` is also in the section's header, and the last caller drops it, so it is not modelled.
pub mod Loaded
pub mod All
use readelfobj_code.Base.{
  ℕ, zero, suc, ◌+◌, ◌-◌, ◌*◌, ◌/◌, ◌%◌, ◌^◌, ◌||◌, bit_and, Bool, not, Option, none, some, List,
  get_elem?, set, leb, ◌==◌, if◌then◌else◌,
}
use readelfobj_code.Base.Memory.{◌>>=◌, array_of}
use readelfobj_code.Bytes.{Host, WordSwap}
use readelfobj_code.Codes.{
  Result, ok, err, no_entry, err_malloc, err_section_size, err_badoffsetsize,
}
use readelfobj_code.Elf.{GenericSymentry, GenericShdr, ElfFiledata}
use readelfobj_code.Elf.Content.{with_content}
use readelfobj_code.Elf.Decompress.{Library, bytes_at}
use readelfobj_code.Elf.Headers.{word_of}
use readelfobj_code.Elf.Records.{record_loop}

-- `dw_elf32_sym` of src/dw_elfstructs.h.
unfoldable pub words_of_sym32 : Host → WordSwap → List ℕ → GenericSymentry
words_of_sym32 host copy psym =
    let info = word_of host copy psym 12 1 in
    record {
      gs_name = word_of host copy psym 0 4;
      gs_value = word_of host copy psym 4 4;
      gs_size = word_of host copy psym 8 4;
      gs_info = info;
      gs_other = word_of host copy psym 13 1;
      gs_shndx = word_of host copy psym 14 2;
      gs_bind = info / 16;
      gs_type = bit_and info 0xf;
    }

-- `dw_elf64_sym` of src/dw_elfstructs.h.
unfoldable pub words_of_sym64 : Host → WordSwap → List ℕ → GenericSymentry
words_of_sym64 host copy psym =
    let info = word_of host copy psym 4 1 in
    record {
      gs_name = word_of host copy psym 0 4;
      gs_value = word_of host copy psym 8 8;
      gs_size = word_of host copy psym 16 8;
      gs_info = info;
      gs_other = word_of host copy psym 5 1;
      gs_shndx = word_of host copy psym 6 2;
      gs_bind = info / 16;
      gs_type = bit_and info 0xf;
    }

-- The array of `ecount` symbols of the `size` bytes that are in `gh_content`. Bytes behind the last
-- whole symbol end the call with nothing kept.
unfoldable pub keep_symbols :
    (List ℕ → GenericSymentry)
    → ℕ
    → Library
    → ℕ
    → ℕ
    → GenericShdr
    → Option (GenericShdr × Result (Unit {0}))
unfolding record_loop
keep_symbols entry sizeof_sym lib offset size psh =
    let ecount = size / sizeof_sym in
    let size2 = ecount * sizeof_sym in
    if not (size2 == size) then some (psh, ok tt) else elim (array_of lib.has_room ecount) [
      | none ↦ some (psh, err err_malloc)
      | some room ↦ record_loop entry sizeof_sym room (bytes_at psh.gh_content) ecount >>= λ gsym.
          some (
            record psh {
              gh_location = record {
                g_offset = offset;
                g_count = ecount;
                g_entrysize = sizeof_sym;
                g_totalsize = size2;
              };
              gh_sym = some gsym;
            },
            ok tt,
          )
    ]

-- The size is the one that the section had before it was decompressed.
unfoldable pub dwarf_generic_elf_load_symbols32 :
    Host → Library → ElfFiledata → GenericShdr → Option (GenericShdr × Result (Unit {0}))
unfolding with_content keep_symbols words_of_sym32
dwarf_generic_elf_load_symbols32 host lib ep psh =
    with_content host lib ep psh (lib.calloc psh.gh_size)
      (keep_symbols (words_of_sym32 host ep.f_copy_word) 16 lib psh.gh_offset psh.gh_size)

unfoldable pub dwarf_generic_elf_load_symbols64 :
    Host → Library → ElfFiledata → GenericShdr → Option (GenericShdr × Result (Unit {0}))
unfolding with_content keep_symbols words_of_sym64
dwarf_generic_elf_load_symbols64 host lib ep psh =
    with_content host lib ep psh (lib.calloc psh.gh_size) (λ psh'.
      keep_symbols (words_of_sym64 host ep.f_copy_word) 24 lib psh.gh_offset psh'.gh_size psh')

unfoldable pub dwarf_generic_elf_load_symbols :
    Host → Library → ElfFiledata → ℕ → GenericShdr → Option (GenericShdr × Result (Unit {0}))
unfolding dwarf_generic_elf_load_symbols32 dwarf_generic_elf_load_symbols64
dwarf_generic_elf_load_symbols host lib ep secnum psh =
    if secnum == 0
    then some (psh, no_entry)
    else if leb ep.f_filesize psh.gh_size
    then some (psh, err err_section_size)
    else if ep.f_offsetsize == 32
    then dwarf_generic_elf_load_symbols32 host lib ep psh
    else if ep.f_offsetsize == 64
    then dwarf_generic_elf_load_symbols64 host lib ep psh
    else some (psh, err err_badoffsetsize)

-- The section number is passed on as an int.
unfoldable pub dwarf_load_elf_symtab_symbols :
    Host → Library → ElfFiledata → GenericShdr → Option (GenericShdr × Result (Unit {0}))
unfolding dwarf_generic_elf_load_symbols
dwarf_load_elf_symtab_symbols host lib ep psh =
    if psh.gh_secnum == 0
    then some (psh, no_entry)
    else dwarf_generic_elf_load_symbols host lib ep (psh.gh_secnum % 2 ^ 32) psh

-- One round of the loop, with `psh` at index `k` of the sections. `SHT_SYMTAB` is 2 and `SHT_DYNSYM`
-- is 11.
unfoldable pub load_symbols_at : Host → Library → ElfFiledata → ℕ → Option ElfFiledata
unfolding dwarf_load_elf_symtab_symbols
load_symbols_at host lib ep k = get_elem? ep.f_shdr k >>= λ psh.
    if (psh.gh_type == 2) || (psh.gh_type == 11)
    then (dwarf_load_elf_symtab_symbols host lib ep psh >>= λ (psh', res).
        some (record ep { f_shdr = set ep.f_shdr k psh' }))
    else some ep

unfoldable pub symbols_loop : Host → Library → ElfFiledata → ℕ → ℕ → Option ElfFiledata
unfolding load_symbols_at
symbols_loop host lib ep k zero = some ep
symbols_loop host lib ep k (suc rounds) =
    load_symbols_at host lib ep k >>= λ ep'. symbols_loop host lib ep' (k + 1) rounds

-- The index `i` of the loop starts at 1, and `psh` at section 0.
unfoldable pub dwarf_load_elf_symtab_symbols_all :
    Host → Library → ElfFiledata → Option (ElfFiledata × Result (Unit {0}))
unfolding symbols_loop
dwarf_load_elf_symtab_symbols_all host lib ep =
    symbols_loop host lib ep 0 (ep.f_loc_shdr.g_count - 1) >>= λ ep'. some (ep', ok tt)

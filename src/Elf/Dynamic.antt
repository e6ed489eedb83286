-- ===== src/Elf/Dynamic.antt =====
-- The dynamic section of src/dwarf_load_elf_headers.c.
use readelfobj_code.Base.{ℕ, ◌*◌, ◌/◌, Option, none, some, List, ◌==◌, if◌then◌else◌}
use readelfobj_code.Base.Memory.{◌>>=◌, array_of}
use readelfobj_code.Base.Words.{u64}
use readelfobj_code.Bytes.{Host, WordSwap}
use readelfobj_code.Codes.{Result, ok, err, err_malloc}
use readelfobj_code.Elf.{GenericDynentry, GenericShdr, ElfFiledata}
use readelfobj_code.Elf.Content.{with_content}
use readelfobj_code.Elf.Decompress.{Library, bytes_at}
use readelfobj_code.Elf.Headers.{word_of}
use readelfobj_code.Elf.Records.{record_loop}
use readelfobj_code.Elf.RelocationWords.{sign_extend}

-- `dw_elf32_dyn` of src/dw_elfstructs.h.
unfoldable pub words_of_dyn32 : Host → WordSwap → List ℕ → GenericDynentry
words_of_dyn32 host copy ebuf = record {
  gd_tag = sign_extend (word_of host copy ebuf 0 4);
  gd_val = word_of host copy ebuf 4 4;
}

-- `dw_elf64_dyn`
unfoldable pub words_of_dyn64 : Host → WordSwap → List ℕ → GenericDynentry
words_of_dyn64 host copy ebuf = record {
  gd_tag = word_of host copy ebuf 0 8;
  gd_val = word_of host copy ebuf 8 8;
}

-- The section with the entries. A generic entry has 16 bytes.
abbrev pub keep_dynamic : GenericShdr → ℕ → ℕ → ℕ → Option (List GenericDynentry) → GenericShdr
keep_dynamic psh offset entrysize ecount entries = record psh {
  gh_dynamic = entries;
  gh_location = record {
    g_offset = offset;
    g_count = ecount;
    g_entrysize = entrysize;
    g_totalsize = u64 (16 * ecount);
  };
}

unfoldable pub generic_dyn_from_dyn32 :
    Host → Library → ElfFiledata → GenericShdr → Option (GenericShdr × Result (Unit {0}))
unfolding with_content record_loop words_of_dyn32
generic_dyn_from_dyn32 host lib ep psh =
    with_content host lib ep psh (lib.malloc psh.gh_size) (λ psh'.
      let ecount = psh'.gh_size / 8 in
      elim (array_of lib.has_room ecount) [
        | none ↦ some (psh', err err_malloc)
        | some room ↦
            record_loop (words_of_dyn32 host ep.f_copy_word) 8 room (bytes_at psh'.gh_content)
              ecount
            >>= λ gbuffer. some (keep_dynamic psh' psh.gh_offset 8 ecount (some gbuffer), ok tt)
      ])

-- Memory for the generic entries is not tested here: without it the first one is a fault.
unfoldable pub generic_dyn_from_dyn64 :
    Host → Library → ElfFiledata → GenericShdr → Option (GenericShdr × Result (Unit {0}))
unfolding with_content record_loop words_of_dyn64
generic_dyn_from_dyn64 host lib ep psh =
    with_content host lib ep psh (lib.malloc psh.gh_size) (λ psh'.
      let ecount = psh'.gh_size / 16 in
      elim (array_of lib.has_room ecount) [
        | none ↦
            if ecount == 0
            then some (keep_dynamic psh' psh.gh_offset 16 ecount none, ok tt)
            else none
        | some room ↦
            record_loop (words_of_dyn64 host ep.f_copy_word) 16 room (bytes_at psh'.gh_content)
              ecount
            >>= λ gbuffer. some (keep_dynamic psh' psh.gh_offset 16 ecount (some gbuffer), ok tt)
      ])

unfoldable pub elf_load_dynamic32 :
    Host → Library → ElfFiledata → GenericShdr → Option (GenericShdr × Result (Unit {0}))
unfolding generic_dyn_from_dyn32
elf_load_dynamic32 host lib ep psh = generic_dyn_from_dyn32 host lib ep psh

unfoldable pub elf_load_dynamic64 :
    Host → Library → ElfFiledata → GenericShdr → Option (GenericShdr × Result (Unit {0}))
unfolding generic_dyn_from_dyn64
elf_load_dynamic64 host lib ep psh = generic_dyn_from_dyn64 host lib ep psh

unfoldable pub dwarf_load_elf_dynamic :
    Host → Library → ElfFiledata → GenericShdr → Option (GenericShdr × Result (Unit {0}))
unfolding elf_load_dynamic32 elf_load_dynamic64
dwarf_load_elf_dynamic host lib ep psh =
    if ep.f_offsetsize == 32
    then elf_load_dynamic32 host lib ep psh
    else elf_load_dynamic64 host lib ep psh

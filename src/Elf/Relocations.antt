-- ===== src/Elf/Relocations.antt =====
-- The sections with relocations of src/dwarf_load_elf_headers.c.
pub mod Loaded
pub mod Kept
pub mod Plain
use readelfobj_code.Base.{
  ℕ, ◌+◌, ◌-◌, ◌*◌, ◌/◌, ◌%◌, ◌^◌, ◌&&◌, ◌||◌, not, Bool, true, false, Option, none, some, List,
  bit_and, get_elem?, set, ltb, leb, ◌==◌, if◌then◌else◌,
}
use readelfobj_code.Base.Memory.{◌>>=◌, array_of}
use readelfobj_code.Base.Words.{u64}
use readelfobj_code.Bytes.{Host, WordSwap, byte}
use readelfobj_code.Codes.{
  Result, ok, err, no_entry, ErrCode, err_malloc, err_file_offset_bad, err_rel_section_size,
  err_rel_count_mismatch, err_not_stored, err_badoffsetsize,
}
use readelfobj_code.Elf.{GenericRela, GenericShdr, ElfFiledata}
use readelfobj_code.Elf.Content.{decompressed, with_block, with_content}
use readelfobj_code.Elf.Decompress.{Library, bytes_at}
use readelfobj_code.Elf.Flags.{is_empty_section}
use readelfobj_code.Elf.Headers.{word_of}
use readelfobj_code.Elf.Records.{read_at_offset, record_loop}
use readelfobj_code.Elf.RelocationWords.{
  sign_extend, char_word, words_of_rela32, words_of_rela64, words_of_rel32, words_of_rel64,
  generic_rel_from, generic_rel_from_rela32, generic_rel_from_rela64, generic_rel_from_rel32,
  generic_rel_from_rel64,
}

module _ (entry_loop : GenericShdr → List ℕ → ℕ → Option (Result (List GenericRela))) (reclen : ℕ)
    (mismatch : ErrCode) (lib : Library) where
  -- The generic relocations of the bytes `relp`, and how many.
  unfoldable pub make_rels :
      GenericShdr → List ℕ → Option (GenericShdr × Result (ℕ × Option (List GenericRela)))
  make_rels psh relp =
      let count = psh.gh_size / reclen in
      if not (psh.gh_size == count * reclen)
      then some (psh, err mismatch)
      else elim (array_of lib.has_room count) [
        | none ↦ some (psh, err err_malloc)
        | some room ↦ entry_loop psh relp room >>= λ answer. elim answer [
          | no_entry ↦ some (psh, no_entry)
          | err code ↦ some (psh, err code)
          | ok grel ↦ some (psh, ok (count, some grel))
        ]
      ]

-- The section does not lie in the file.
abbrev pub off_file : ElfFiledata → GenericShdr → Bool
off_file ep psh =
    ltb ep.f_filesize psh.gh_offset
    || ltb ep.f_filesize psh.gh_size
    || ltb ep.f_filesize (u64 (psh.gh_size + psh.gh_offset))

-- What is read goes to `relp` alone, so a compressed section is decompressed from the `gh_content`
-- that it had before.
abbrev pub with_relp :
    Host
    → Library
    → ElfFiledata
    → GenericShdr
    → Option (List ℕ)
    → (GenericShdr → List ℕ → Option (GenericShdr × Result (ℕ × Option (List GenericRela))))
    → Option (GenericShdr × Result (ℕ × Option (List GenericRela)))
with_relp host lib ep psh none keep = some (psh, err err_malloc)
with_relp host lib ep psh (some block) keep =
    read_at_offset ep block psh.gh_offset psh.gh_size >>= λ answer. elim answer [
      | no_entry ↦ some (psh, no_entry)
      | err code ↦ some (psh, err code)
      | ok relp ↦
          if bit_and psh.gh_flags 0x800 == 0
          then keep psh relp
          else (decompressed host lib ep psh >>= λ (psh', res). elim res [
            | no_entry ↦ some (psh', no_entry)
            | err code ↦ some (psh', err code)
            | ok done ↦ keep psh' (bytes_at psh'.gh_content)
          ])
    ]

unfoldable pub dwarf_elf_load_rela_32 :
    Host
    → Library
    → ElfFiledata
    → GenericShdr
    → Option (GenericShdr × Result (ℕ × Option (List GenericRela)))
unfolding read_at_offset decompressed make_rels generic_rel_from_rela32
dwarf_elf_load_rela_32 host lib ep psh =
    if psh.gh_size == 0
    then some (psh, ok (0, none))
    else if off_file ep psh
    then some (psh, err err_file_offset_bad)
    else with_relp host lib ep psh (lib.malloc psh.gh_size)
        (make_rels (generic_rel_from_rela32 host ep) 12 err_rel_section_size lib)

unfoldable pub dwarf_elf_load_rela_64 :
    Host
    → Library
    → ElfFiledata
    → GenericShdr
    → Option (GenericShdr × Result (ℕ × Option (List GenericRela)))
unfolding with_content make_rels generic_rel_from_rela64
dwarf_elf_load_rela_64 host lib ep psh =
    if psh.gh_size == 0
    then some (psh, err err_rel_section_size)
    else if off_file ep psh
    then some (psh, err err_file_offset_bad)
    else with_content host lib ep psh (lib.malloc psh.gh_size) (λ psh'.
      make_rels (generic_rel_from_rela64 host lib ep) 24 err_rel_count_mismatch lib psh'
        (bytes_at psh'.gh_content))

-- Without memory `RO_ERR_MALLOC`, 4, is returned: `none`. Its caller takes that for success. Other
-- failures here store no code.
unfoldable pub dwarf_elf_load_rel_32 :
    Host
    → Library
    → ElfFiledata
    → GenericShdr
    → Option (GenericShdr × Option (Result (ℕ × Option (List GenericRela))))
unfolding with_block make_rels generic_rel_from_rel32
dwarf_elf_load_rel_32 host lib ep psh =
    if psh.gh_size == 0
    then some (psh, some (err err_not_stored))
    else if off_file ep psh
    then some (psh, some (err err_not_stored))
    else elim (lib.malloc psh.gh_size) [
      | none ↦ some (psh, none)
      | some block ↦
          with_block host lib ep psh block (λ psh'.
            make_rels (generic_rel_from_rel32 host ep) 8 err_not_stored lib psh'
              (bytes_at psh'.gh_content))
          >>= λ (psh', answer). some (psh', some answer)
    ]

-- An error of the generic relocations is returned as `RO_ERROR`, as they are.
unfoldable pub dwarf_elf_load_rel_64 :
    Host
    → Library
    → ElfFiledata
    → GenericShdr
    → Option (GenericShdr × Result (ℕ × Option (List GenericRela)))
unfolding with_content make_rels generic_rel_from_rel64
dwarf_elf_load_rel_64 host lib ep psh =
    if psh.gh_size == 0
    then some (psh, err err_rel_section_size)
    else if off_file ep psh
    then some (psh, err err_file_offset_bad)
    else with_content host lib ep psh (lib.malloc psh.gh_size) (λ psh'.
      make_rels (generic_rel_from_rel64 host lib ep) 16 err_rel_count_mismatch lib psh'
        (bytes_at psh'.gh_content))

-- What the section keeps of the relocations.
abbrev pub keep_rels :
    GenericShdr → Result (ℕ × Option (List GenericRela)) → GenericShdr × Result (Unit {0})
keep_rels psh no_entry = (psh, no_entry)
keep_rels psh (err code) = (psh, err code)
keep_rels psh (ok (count, grel)) = (record psh { gh_rels = grel; gh_relcount = count }, ok tt)

-- A number that is no failure keeps what the call did not store: nothing.
abbrev pub keep_returned :
    GenericShdr → Option (Result (ℕ × Option (List GenericRela))) → GenericShdr × Result (Unit {0})
keep_returned psh none = keep_rels psh (ok (0, none))
keep_returned psh (some answer) = keep_rels psh answer

-- The section header `psh` at `secnum`, as it is given to a function and as it is left.
abbrev pub at_section :
    ElfFiledata
    → ℕ
    → (GenericShdr → Option (GenericShdr × Result (Unit {0})))
    → Option (ElfFiledata × Result (Unit {0}))
at_section ep secnum f = get_elem? ep.f_shdr secnum >>= λ psh.
    f psh >>= λ (psh', res). some (record ep { f_shdr = set ep.f_shdr secnum psh' }, res)

unfoldable pub dwarf_load_elf_rela :
    Host → Library → ElfFiledata → ℕ → Option (ElfFiledata × Result (Unit {0}))
unfolding is_empty_section dwarf_elf_load_rela_32 dwarf_elf_load_rela_64
dwarf_load_elf_rela host lib ep secnum = at_section ep secnum (λ psh.
    if is_empty_section psh.gh_type
    then some (psh, no_entry)
    else if ep.f_offsetsize == 32
    then (dwarf_elf_load_rela_32 host lib ep psh >>= λ (psh', answer). some (keep_rels psh' answer))
    else if ep.f_offsetsize == 64
    then (dwarf_elf_load_rela_64 host lib ep psh >>= λ (psh', answer). some (keep_rels psh' answer))
    else some (psh, err err_badoffsetsize))

unfoldable pub dwarf_load_elf_rel :
    Host → Library → ElfFiledata → ℕ → Option (ElfFiledata × Result (Unit {0}))
unfolding is_empty_section dwarf_elf_load_rel_32 dwarf_elf_load_rel_64
dwarf_load_elf_rel host lib ep secnum = at_section ep secnum (λ psh.
    if is_empty_section psh.gh_type
    then some (psh, no_entry)
    else if ep.f_offsetsize == 32
    then (dwarf_elf_load_rel_32 host lib ep psh >>= λ (psh', answer).
        some (keep_returned psh' answer))
    else if ep.f_offsetsize == 64
    then (dwarf_elf_load_rel_64 host lib ep psh >>= λ (psh', answer). some (keep_rels psh' answer))
    else some (psh, err err_badoffsetsize))

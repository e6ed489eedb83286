-- ===== src/Elf/Strings.antt =====
-- The string sections of src/dwarf_load_elf_headers.c.
pub mod Terminated
use readelfobj_code.Base.{
  ℕ, ◌+◌, ◌||◌, not, bit_and, Option, none, some, List, [], get_elem?, leb, ◌==◌, if◌then◌else◌,
}
use readelfobj_code.Base.Memory.{◌>>=◌}
use readelfobj_code.Base.Words.{u64}
use readelfobj_code.Bytes.{Host}
use readelfobj_code.Codes.{Result, ok, err, no_entry, err_not_stored, err_string_offset_big}
use readelfobj_code.Elf.{GenericShdr, ElfFiledata}
use readelfobj_code.Elf.Content.{decompressed}
use readelfobj_code.Elf.Decompress.{Library, is_there}
use readelfobj_code.Elf.Flags.{is_empty_section}
use readelfobj_code.Elf.Records.{read_at_offset}

-- The content of a section whose decompression fails is given back, with the size kept.
abbrev pub drop_failed : GenericShdr × Result (Unit {0}) → Option (GenericShdr × Result (Unit {0}))
drop_failed (psh, ok done) = some (psh, ok done)
drop_failed (psh, no_entry) = some (record psh { gh_content = none }, no_entry)
drop_failed (psh, err code) = some (record psh { gh_content = none }, err code)

unfoldable pub dwarf_load_elf_symstr :
    Host → Library → ElfFiledata → GenericShdr → Option (GenericShdr × Result (Unit {0}))
unfolding read_at_offset decompressed
dwarf_load_elf_symstr host lib ep strpsh =
    if is_there strpsh.gh_content
    then some (strpsh, ok tt)
    else elim (lib.calloc (u64 (strpsh.gh_size + 1))) [
      | none ↦ some (record strpsh { gh_size = 0 }, err err_not_stored)
      | some block ↦ read_at_offset ep block strpsh.gh_offset strpsh.gh_size >>= λ answer.
          elim answer [
            | no_entry ↦ some (strpsh, no_entry)
            | err code ↦ some (strpsh, err code)
            | ok filled ↦
                decompressed host lib ep (record strpsh { gh_content = some filled })
                >>= drop_failed
          ]
    ]

-- The string is the content and the index of its first byte in it. A null pointer and an index are
-- no string: a fault when it is used.
unfoldable pub dwarf_get_elf_symstr_string :
    ElfFiledata → ℕ → ℕ → Option (Result (Option (List ℕ) × ℕ))
dwarf_get_elf_symstr_string ep linktostrings index =
    if leb ep.f_ehdr.ge_shnum linktostrings
    then some (err err_string_offset_big)
    else (get_elem? ep.f_shdr linktostrings >>= λ psh. some (
        if not (psh.gh_type == 3)
        then err err_string_offset_big
        else if leb psh.gh_size index
        then err err_string_offset_big
        else ok (psh.gh_content, index)))

unfoldable pub elf_load_sectstrings :
    Host → Library → ElfFiledata → GenericShdr → Option (GenericShdr × Result (Unit {0}))
unfolding read_at_offset decompressed is_empty_section
elf_load_sectstrings host lib ep psh =
    if is_empty_section psh.gh_type
    then some (psh, err err_not_stored)
    else if is_there psh.gh_content
    then some (psh, err err_not_stored)
    else elim (lib.calloc psh.gh_size) [
      | none ↦ some (record psh { gh_size = 0 }, err err_not_stored)
      | some block ↦ read_at_offset ep block psh.gh_offset psh.gh_size >>= λ answer. elim answer [
        | no_entry ↦ some (record psh { gh_size = 0 }, no_entry)
        | err code ↦ some (record psh { gh_size = 0 }, err code)
        | ok filled ↦ decompressed host lib ep (record psh { gh_content = some filled })
      ]
    ]

-- ===== src/Elf/Content.antt =====
-- The bytes of a section in src/dwarf_load_elf_headers.c: read into `gh_content`, and decompressed. The
-- text stands in each function that reads a section. The program is built with zlib and zstd.
pub mod Read
use readelfobj_code.Base.{ℕ, bit_and, Option, none, some, List, ◌==◌, if◌then◌else◌}
use readelfobj_code.Base.Memory.{◌>>=◌}
use readelfobj_code.Bytes.{Host}
use readelfobj_code.Codes.{Result, ok, err, no_entry, err_malloc}
use readelfobj_code.Elf.{GenericShdr, ElfFiledata}
use readelfobj_code.Elf.Decompress.{Library, dwarf_elf_do_decompress}
use readelfobj_code.Elf.Records.{read_at_offset}

-- A section that is compressed, with its bytes in `gh_content`, is decompressed. `SHF_COMPRESSED` is
-- 0x800.
unfoldable pub decompressed :
    Host → Library → ElfFiledata → GenericShdr → Option (GenericShdr × Result (Unit {0}))
unfolding dwarf_elf_do_decompress
decompressed host lib ep psh =
    if bit_and psh.gh_flags 0x800 == 0
    then some (psh, ok tt)
    else dwarf_elf_do_decompress host lib ep (record psh { gh_compressed_len = psh.gh_size })

-- The section's bytes in `block`, decompressed, and then `keep`.
unfoldable pub with_block {ℓ} :
    {A : Type ℓ}
    → Host
    → Library
    → ElfFiledata
    → GenericShdr
    → List ℕ
    → (GenericShdr → Option (GenericShdr × Result A))
    → Option (GenericShdr × Result A)
unfolding read_at_offset decompressed
with_block host lib ep psh block keep =
    read_at_offset ep block psh.gh_offset psh.gh_size >>= λ answer. elim answer [
      | no_entry ↦ some (psh, no_entry)
      | err code ↦ some (psh, err code)
      | ok filled ↦
          decompressed host lib ep (record psh { gh_content = some filled }) >>= λ (psh', res).
          elim res [
            | no_entry ↦ some (psh', no_entry)
            | err code ↦ some (psh', err code)
            | ok done ↦ keep psh'
          ]
    ]

-- Without a block `RO_ERR_MALLOC` is stored.
unfoldable pub with_content {ℓ} :
    {A : Type ℓ}
    → Host
    → Library
    → ElfFiledata
    → GenericShdr
    → Option (List ℕ)
    → (GenericShdr → Option (GenericShdr × Result A))
    → Option (GenericShdr × Result A)
unfolding with_block
with_content host lib ep psh none keep = some (psh, err err_malloc)
with_content host lib ep psh (some block) keep = with_block host lib ep psh block keep

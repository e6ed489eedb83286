-- ===== src/Elf/Load.antt =====
-- The calls of src/dwarf_load_elf_headers.c that choose by the class of the object, and the names of
-- the sections. What `elf_check_sect_sizes` and `elf_check_phdr_sizes` print is not modelled.
use readelfobj_code.Base.{Bool, Option, none, some, get_elem?, set, leb, ◌==◌, if◌then◌else◌}
use readelfobj_code.Base.Memory.{◌>>=◌}
use readelfobj_code.Bytes.{Host, byte}
use readelfobj_code.Codes.{
  Result, ok, err, no_entry, err_bad_type_size, err_elf_class, elf_endian_bad, err_badoffsetsize,
  err_not_stored,
}
use readelfobj_code.Elf.{ElfFiledata}
use readelfobj_code.Elf.Decompress.{Library}
use readelfobj_code.Elf.Headers.{elf_load_elf_header32, elf_load_elf_header64}
use readelfobj_code.Elf.Programs.{Returned, returns, elf_load_progheaders32, elf_load_progheaders64}
use readelfobj_code.Elf.Sections.{Platform, elf_load_sectheaders32, elf_load_sectheaders64}
use readelfobj_code.Elf.Strings.{elf_load_sectstrings}

-- `same_sizes` says whether the structures of elf.h, where there is one, have the sizes of the ones of
-- src/dw_elfstructs.h.
unfoldable pub validate_struct_sizes : Bool → Result (Unit {0})
validate_struct_sizes same_sizes = if same_sizes then ok tt else err err_bad_type_size

-- The switch on `f_ident[EI_CLASS]`. `none` is the error.
unfoldable pub set_class : ElfFiledata → Option ElfFiledata
set_class ep =
    let class = byte ep.f_ident 4 in
    if class == 1
    then some (record ep { f_offsetsize = 32; f_pointersize = 32 })
    else if class == 2
    then some (record ep { f_offsetsize = 64; f_pointersize = 64 })
    else if class == 0
    then some ep
    else none

-- The switch on `f_ident[EI_DATA]`. `DW_END_little` is 2 and `DW_END_big` is 4.
unfoldable pub set_endian : ElfFiledata → Option ElfFiledata
set_endian ep =
    let data_encoding = byte ep.f_ident 5 in
    if data_encoding == 1
    then some (record ep { f_endian = 2 })
    else if data_encoding == 2
    then some (record ep { f_endian = 4 })
    else if data_encoding == 0
    then some ep
    else none

-- Both switches, and then the answer of the load.
unfoldable pub set_ident : ElfFiledata × Result (Unit {0}) → ElfFiledata × Result (Unit {0})
unfolding set_class set_endian
set_ident (ep, res) = elim (set_class ep) [
  | none ↦ (ep, err elf_endian_bad)
  | some ep' ↦ elim (set_endian ep') [ none ↦ (ep', err elf_endian_bad) | some ep'' ↦ (ep'', res) ]
]

unfoldable pub dwarf_load_elf_header :
    Host → Bool → Bool → ElfFiledata → ElfFiledata × Result (Unit {0})
unfolding validate_struct_sizes elf_load_elf_header32 elf_load_elf_header64 set_ident
dwarf_load_elf_header host same_sizes granted ep = elim (validate_struct_sizes same_sizes) [
  | no_entry ↦ (ep, no_entry)
  | err code ↦ (ep, err code)
  | ok done ↦
      if ep.f_offsetsize == 32
      then set_ident (elf_load_elf_header32 host granted ep)
      else if ep.f_offsetsize == 64
      then set_ident (elf_load_elf_header64 host granted ep)
      else (ep, err err_elf_class)
]

-- The section with the names, once the headers are there.
unfoldable pub load_names : Host → Library → ElfFiledata → Option (ElfFiledata × Result (Unit {0}))
unfolding elf_load_sectstrings
load_names host lib ep =
    if leb ep.f_loc_shdr.g_count ep.f_elf_shstrings_sect_index
    then some (ep, err err_not_stored)
    else (get_elem? ep.f_shdr ep.f_elf_shstrings_sect_index >>= λ psh.
        elf_load_sectstrings host lib ep psh >>= λ (psh', res).
        some (record ep { f_shdr = set ep.f_shdr ep.f_elf_shstrings_sect_index psh' }, res))

unfoldable pub dwarf_load_elf_sectheaders :
    Host → Platform → Library → ElfFiledata → Option (ElfFiledata × Result (Unit {0}))
unfolding elf_load_sectheaders32 elf_load_sectheaders64 load_names
dwarf_load_elf_sectheaders host given lib ep =
    (if ep.f_offsetsize == 32
      then elf_load_sectheaders32 host given ep ep.f_ehdr.ge_shoff ep.f_ehdr.ge_shentsize
      else elf_load_sectheaders64 host given ep ep.f_ehdr.ge_shoff ep.f_ehdr.ge_shentsize)
    >>= λ (ep', res). elim res [
      | no_entry ↦ some (ep', no_entry)
      | err code ↦ some (ep', err code)
      | ok done ↦ load_names host lib ep'
    ]

unfoldable pub dwarf_load_elf_progheaders :
    Host → Platform → ElfFiledata → Option (ElfFiledata × Returned)
unfolding elf_load_progheaders32 elf_load_progheaders64
dwarf_load_elf_progheaders host given ep =
    let ehdr = ep.f_ehdr in
    if ep.f_offsetsize == 32
    then (if ehdr.ge_phnum == 0
        then some (ep, returns no_entry)
        else elf_load_progheaders32 host given ep ehdr.ge_phoff ehdr.ge_phentsize ehdr.ge_phnum)
    else if ep.f_offsetsize == 64
    then (if ehdr.ge_phnum == 0
        then some (ep, returns no_entry)
        else elf_load_progheaders64 host given ep ehdr.ge_phoff ehdr.ge_phentsize ehdr.ge_phnum)
    else some (ep, returns (err err_badoffsetsize))

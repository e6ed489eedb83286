-- ===== src/Elf.antt =====
-- src/readelfobj.h: what src/dwarf_load_elf_headers.c keeps of an Elf object. Fields that only the
-- printing program uses are not here.
pub mod Flags
pub mod Headers
pub mod Sections
pub mod Groups
pub mod Programs
pub mod Decompress
pub mod Records
pub mod Content
pub mod Symbols
pub mod Strings
pub mod RelocationWords
pub mod Relocations
pub mod Dynamic
pub mod Load
pub mod Layout
use readelfobj_code.Base.{ℕ, ◌+◌, Bool, false, List, [], ◌∷◌, ◌++◌, Option, none}
use readelfobj_code.Base.Words.{u64}
use readelfobj_code.Bytes.{WordSwap, plain}
use readelfobj_code.ObjectRead.{Descriptor}

pub record GenericEhdr : Type 0 where
  pub ge_ident : List ℕ
  pub ge_type : ℕ
  pub ge_machine : ℕ
  pub ge_version : ℕ
  pub ge_entry : ℕ
  pub ge_phoff : ℕ
  pub ge_shoff : ℕ
  pub ge_flags : ℕ
  pub ge_ehsize : ℕ
  pub ge_phentsize : ℕ
  pub ge_phnum : ℕ
  pub ge_shentsize : ℕ
  pub ge_shnum : ℕ
  pub ge_shnum_in_shnum : Bool
  pub ge_shnum_extended : Bool
  pub ge_shstrndx : ℕ
  pub ge_strndx_in_strndx : Bool
  pub ge_strndx_extended : Bool

-- `struct location` without its name.
pub record Location : Type 0 where
  pub g_offset : ℕ
  pub g_count : ℕ
  pub g_entrysize : ℕ
  pub g_totalsize : ℕ

-- A symbol, with the words that are derived from `gs_info`.
pub record GenericSymentry : Type 0 where
  pub gs_name : ℕ
  pub gs_value : ℕ
  pub gs_size : ℕ
  pub gs_info : ℕ
  pub gs_other : ℕ
  pub gs_shndx : ℕ
  pub gs_bind : ℕ
  pub gs_type : ℕ

-- A relocation. A field that keeps what `malloc` gave is `none`. A signed word is its 64-bit pattern.
pub record GenericRela : Type 0 where
  pub gr_isrela : Option Bool
  pub gr_offset : ℕ
  pub gr_info : ℕ
  pub gr_sym : ℕ
  pub gr_type : ℕ
  pub gr_addend : ℕ
  pub gr_type2 : Option ℕ
  pub gr_type3 : Option ℕ

-- The tag is signed: its 64-bit pattern.
pub record GenericDynentry : Type 0 where
  pub gd_tag : ℕ
  pub gd_val : ℕ

-- The name is a C string, and an array that is not there is `none`.
pub record GenericShdr : Type 0 where
  pub gh_secnum : ℕ
  pub gh_name : ℕ
  pub gh_namestring : List ℕ
  pub gh_type : ℕ
  pub gh_flags : ℕ
  pub gh_addr : ℕ
  pub gh_offset : ℕ
  pub gh_size : ℕ
  pub gh_link : ℕ
  pub gh_info : ℕ
  pub gh_addralign : ℕ
  pub gh_entsize : ℕ
  pub gh_fdoffset : ℕ
  pub gh_content : Option (List ℕ)
  pub gh_compressed_len : ℕ
  pub gh_relcount : ℕ
  pub gh_rels : Option (List GenericRela)
  pub gh_section_group_number : ℕ
  pub gh_sht_group_array : Option (List ℕ)
  pub gh_sht_group_array_count : ℕ
  pub gh_is_dwarf : Bool
  pub gh_location : Location
  pub gh_dynamic : Option (List GenericDynentry)
  pub gh_sym : Option (List GenericSymentry)

pub record GenericPhdr : Type 0 where
  pub gp_type : ℕ
  pub gp_flags : ℕ
  pub gp_offset : ℕ
  pub gp_vaddr : ℕ
  pub gp_paddr : ℕ
  pub gp_filesz : ℕ
  pub gp_memsz : ℕ
  pub gp_align : ℕ

-- A section header as `calloc` makes it.
abbrev pub zero_shdr : GenericShdr
zero_shdr = record {
  gh_secnum = 0;
  gh_name = 0;
  gh_namestring = [];
  gh_type = 0;
  gh_flags = 0;
  gh_addr = 0;
  gh_offset = 0;
  gh_size = 0;
  gh_link = 0;
  gh_info = 0;
  gh_addralign = 0;
  gh_entsize = 0;
  gh_fdoffset = 0;
  gh_content = none;
  gh_compressed_len = 0;
  gh_relcount = 0;
  gh_rels = none;
  gh_section_group_number = 0;
  gh_sht_group_array = none;
  gh_sht_group_array_count = 0;
  gh_is_dwarf = false;
  gh_location = record { g_offset = 0; g_count = 0; g_entrysize = 0; g_totalsize = 0 };
  gh_dynamic = none;
  gh_sym = none;
}

-- A part of the file that is in use, without the name that it is printed with.
pub record InUse : Type 0 where
  pub u_offset : ℕ
  pub u_align : ℕ
  pub u_length : ℕ
  pub u_lastbyte : ℕ

-- The lists that are linked in the code, and its arrays, are lists here.
pub record ElfFiledata : Type 0 where
  pub f_ident : List ℕ
  pub f_fd : Descriptor
  pub f_fdoffset : ℕ
  pub f_machine : ℕ
  pub f_endian : ℕ
  pub f_pointersize : ℕ
  pub f_offsetsize : ℕ
  pub f_filesize : ℕ
  pub f_copy_word : WordSwap
  pub f_in_use : List InUse
  pub f_in_use_count : ℕ
  pub f_loc_ehdr : Location
  pub f_ehdr : GenericEhdr
  pub f_loc_shdr : Location
  pub f_shdr : List GenericShdr
  pub f_loc_phdr : Location
  pub f_phdr : List GenericPhdr
  pub f_elf_shstrings_sect_index : ℕ
  pub f_sg_next_group_number : ℕ
  pub f_sht_group_type_section_count : ℕ
  pub f_shf_group_flag_section_count : ℕ
  pub f_dwo_group_section_count : ℕ

-- The entry goes behind the others. Without memory for one the program ends by `exit(1)`, so memory
-- is taken as given.
unfoldable pub dwarf_insert_in_use_entry : ElfFiledata → ℕ → ℕ → ℕ → ElfFiledata
dwarf_insert_in_use_entry ep offset length align = record ep {
  f_in_use =
      ep.f_in_use
      ++ record {
        u_offset = offset;
        u_align = align;
        u_length = length;
        u_lastbyte = u64 (offset + length);
      }
        ∷ [];
  f_in_use_count = u64 (ep.f_in_use_count + 1);
}

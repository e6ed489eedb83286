-- ===== src/Tests/Elf.antt =====
-- The theorems on Elf objects at concrete inputs.
use readelfobj_code.Base.{
  ℕ, ◌+◌, ◌*◌, get_elem?, ltb, ◌≡◌, ◌≢◌, refl, sym, ap, ◌∙◌, arith, true, false, List, [], ◌∷◌,
  Option, none, some, length, replicate, length-replicate,
}
use readelfobj_code.Bytes.{little_host, plain}
use readelfobj_code.Codes.{Result, ok}
use readelfobj_code.Elf.{GenericEhdr, GenericShdr, zero_shdr, Location, ElfFiledata}
use Prim.Native.String.{String}
use readelfobj_code.Base.Text.{codes}
use readelfobj_code.Elf.Groups.{read_gs_section_group, elf_setup_all_section_groups}
use readelfobj_code.Elf.Groups.Answered.{look}
use readelfobj_code.Elf.Groups.Looks.{looked}
use readelfobj_code.Elf.Groups.Dwarf.{elf_setup_all_section_groups_lem}
use readelfobj_code.Elf.Groups.Read.{ReadsGroup, read_gs_section_group-ReadsGroup}
use readelfobj_code.Elf.Flags.{
  getbitsoncount, is_empty_section, elf_sht_groupsec, elf_flagmatches, string_endswith,
  dwarf_load_elf_section_is_dwarf,
}
use readelfobj_code.Elf.Flags.Bits.{ones, eights, getbitsoncount-ones}
use readelfobj_code.Elf.Programs.{
  Returned, returns, words_of_phdr32, words_of_phdr64, elf_load_progheaders32,
  elf_load_progheaders64,
}
use readelfobj_code.Elf.Programs.Segments.{HasSegments}
use readelfobj_code.Elf.Programs.Within.{elf_load_progheaders-SafelyReads}
use readelfobj_code.Elf.Layout.{
  words_at, header_sizes, CopiesSections, CopiesSegments32, CopiesSegments64,
}
use readelfobj_code.Elf.Headers.{elf_load_elf_header32, elf_load_elf_header64}
use readelfobj_code.Elf.Headers.Kept.{HasHeader, elf_load_elf_header-HasHeader}
use readelfobj_code.ObjectRead.Ranges.{slice}
use readelfobj_code.Elf.Sections.{
  Platform, copysection32, copysection64, elf_load_sectheaders32, elf_load_sectheaders64,
}
use readelfobj_code.Elf.Sections.Inside.{IsLoaded}
use readelfobj_code.Elf.Sections.Loads.{elf_load_sectheaders-LoadsTable}
use readelfobj_code.Tests.Files.{file_descriptor, file_descriptor-IsFile}

getbitsoncount-ones_example : getbitsoncount 0x8c ≡ some (ones 64 0x8c + eights 16 0x8c)
getbitsoncount-ones_example = getbitsoncount-ones 0x8c (omega arith)

-- Memory is always there, and the descriptor stands at its start.
unfoldable platform : Platform
platform = record {
  calloc = λ n k. some (replicate (n * k) 0);
  has_room = λ n. true;
  lseek_cur = λ offset. offset;
}

abbrev pub some_block : Option (List ℕ) → List ℕ
some_block none = []
some_block (some block) = block

platform-blocks :
    (n k : ℕ) (block : List ℕ) → platform.calloc n k ≡ some block → length block ≡ n * k
unfolding platform
platform-blocks n k block e = ap (λ b. length (some_block b)) (sym e) ∙ length-replicate (n * k) 0

-- Two section headers of 40 bytes.
abbrev table_file : List ℕ
table_file = replicate 80 0

abbrev no_place : Location
no_place = record { g_offset = 0; g_count = 0; g_entrysize = 0; g_totalsize = 0 }

abbrev two_sections : GenericEhdr
two_sections = record {
  ge_ident = [];
  ge_type = 1;
  ge_machine = 3;
  ge_version = 1;
  ge_entry = 0;
  ge_phoff = 0;
  ge_shoff = 0;
  ge_flags = 0;
  ge_ehsize = 52;
  ge_phentsize = 0;
  ge_phnum = 0;
  ge_shentsize = 40;
  ge_shnum = 2;
  ge_shnum_in_shnum = true;
  ge_shnum_extended = false;
  ge_shstrndx = 1;
  ge_strndx_in_strndx = true;
  ge_strndx_extended = false;
}

abbrev pub opened : ElfFiledata
opened = record {
  f_ident = [];
  f_fd = file_descriptor table_file;
  f_fdoffset = 0;
  f_machine = 3;
  f_endian = 2;
  f_pointersize = 32;
  f_offsetsize = 32;
  f_filesize = 80;
  f_copy_word = plain;
  f_in_use = [];
  f_in_use_count = 0;
  f_loc_ehdr = no_place;
  f_ehdr = two_sections;
  f_loc_shdr = no_place;
  f_shdr = [];
  f_loc_phdr = no_place;
  f_phdr = [];
  f_elf_shstrings_sect_index = 0;
  f_sg_next_group_number = 3;
  f_sht_group_type_section_count = 0;
  f_shf_group_flag_section_count = 0;
  f_dwo_group_section_count = 0;
}

elf_load_sectheaders-LoadsTable_example :
    ((r : ElfFiledata × Result (Unit {0})) × (elf_load_sectheaders32 little_host platform opened 0
          40
        ≡ some r)
      × (r.1 ≡ ok tt → IsLoaded (copysection32 little_host plain) 40 40 table_file 0 2 4 [] r.0))
    × ((r : ElfFiledata × Result (Unit {0})) × (elf_load_sectheaders64 little_host platform opened 0
            40
          ≡ some r)
        × (r.1 ≡ ok tt → IsLoaded (copysection64 little_host plain) 64 40 table_file 0 2 8 [] r.0))
    × CopiesSections little_host plain 4 (copysection32 little_host plain)
    × CopiesSections little_host plain 8 (copysection64 little_host plain)
elf_load_sectheaders-LoadsTable_example =
    elf_load_sectheaders-LoadsTable platform (file_descriptor table_file) table_file
      (file_descriptor-IsFile table_file (omega arith)) platform-blocks (omega arith) opened refl
      refl refl 0 40 little_host

-- A group of one section, and three section headers of which the last one is the group's.
abbrev group_file : List ℕ
group_file = 1 ∷ 0 ∷ 0 ∷ 0 ∷ 1 ∷ 0 ∷ 0 ∷ 0 ∷ []

abbrev group_header : GenericShdr
group_header = record zero_shdr { gh_secnum = 2; gh_type = 17; gh_size = 8; gh_entsize = 4 }

abbrev with_group : ElfFiledata
with_group = record opened {
  f_fd = file_descriptor group_file;
  f_filesize = 8;
  f_shdr = zero_shdr ∷ record zero_shdr { gh_secnum = 1; gh_type = 1 } ∷ group_header ∷ [];
  f_loc_shdr = record { g_offset = 0; g_count = 3; g_entrysize = 40; g_totalsize = 120 };
}

unfoldable zeros : ℕ → Option (List ℕ)
zeros n = some (replicate n 0)

zeros-blocks : (n : ℕ) (block : List ℕ) → zeros n ≡ some block → length block ≡ n
unfolding zeros
zeros-blocks n block e = ap (λ b. length (some_block b)) (sym e) ∙ length-replicate n 0

has_number : with_group.f_sg_next_group_number ≢ 0
has_number = ground arith

read_gs_section_group-ReadsGroup_example :
    ReadsGroup with_group 2 has_number 2
      (read_gs_section_group little_host zeros with_group 2 group_header)
read_gs_section_group-ReadsGroup_example =
    read_gs_section_group-ReadsGroup with_group 2 has_number little_host zeros zeros-blocks
      (file_descriptor group_file) group_file (file_descriptor-IsFile group_file (omega arith)) refl
      (omega arith) (omega arith) group_header refl (ground arith)

-- Two sections with DWARF behind section zero.
abbrev named : String → GenericShdr
named name = record zero_shdr { gh_type = 1; gh_namestring = codes name }

abbrev with_names : ElfFiledata
with_names = record opened {
  f_shdr = zero_shdr ∷ named ".debug_info" ∷ named ".debug_str" ∷ [];
  f_loc_shdr = record { g_offset = 0; g_count = 3; g_entrysize = 40; g_totalsize = 120 };
}

abbrev with_dwarf : ElfFiledata
with_dwarf = record with_names {
  f_shdr =
      zero_shdr
      ∷ record (named ".debug_info") { gh_is_dwarf = true; gh_section_group_number = 1 }
      ∷ named ".debug_str"
      ∷ [];
}

with_dwarf_set :
    elf_setup_all_section_groups little_host zeros with_names ≡ some (with_dwarf, ok tt)
unfolding elf_setup_all_section_groups is_empty_section elf_sht_groupsec elf_flagmatches
    string_endswith dwarf_load_elf_section_is_dwarf
with_dwarf_set = refl

elf_setup_all_section_groups_lem_example :
    look (get_elem? with_dwarf.f_shdr 1) ≡ looked (ltb 1 2) (look (get_elem? with_names.f_shdr 1))
elf_setup_all_section_groups_lem_example =
    elf_setup_all_section_groups_lem little_host zeros with_names with_dwarf with_dwarf_set 1

elf_load_progheaders-SafelyReads_example :
    ((r : ElfFiledata × Returned) × (elf_load_progheaders32 little_host platform opened 8 32 2
        ≡ some r)
      × (r.1 ≡ returns (ok tt)
          → HasSegments (words_of_phdr32 little_host plain) 32 table_file 8 32 2 [] r.0))
    × ((r : ElfFiledata × Returned) × (elf_load_progheaders64 little_host platform opened 8 32 2
          ≡ some r)
        × (r.1 ≡ returns (ok tt)
            → HasSegments (words_of_phdr64 little_host plain) 56 table_file 8 32 2 [] r.0))
    × CopiesSegments32 little_host plain (words_of_phdr32 little_host plain)
    × CopiesSegments64 little_host plain (words_of_phdr64 little_host plain)
elf_load_progheaders-SafelyReads_example =
    elf_load_progheaders-SafelyReads little_host platform (file_descriptor table_file) table_file
      (file_descriptor-IsFile table_file (omega arith)) platform-blocks (omega arith) opened refl
      refl 8 32 2

elf_load_elf_header-HasHeader_example :
    ((after : ElfFiledata) × (elf_load_elf_header32 little_host true opened ≡ (after, ok tt))
      × HasHeader 52 4
          (slice table_file 0 16)
          (words_at little_host plain (header_sizes 4) 16 (slice table_file 0 52))
          []
          after)
    × ((after : ElfFiledata) × (elf_load_elf_header64 little_host true opened ≡ (after, ok tt))
        × HasHeader 64 8
            (slice table_file 0 16)
            (words_at little_host plain (header_sizes 8) 16 (slice table_file 0 64))
            []
            after)
elf_load_elf_header-HasHeader_example =
    elf_load_elf_header-HasHeader little_host (file_descriptor table_file) table_file
      (file_descriptor-IsFile table_file (omega arith)) opened refl refl (omega arith)

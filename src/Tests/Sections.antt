-- ===== src/Tests/Sections.antt =====
-- The theorems on the contents of Elf sections at concrete inputs.
use readelfobj_code.Base.{
  ℕ, ◌≡◌, refl, sym, ap, ◌∙◌, arith, true, List, [], ◌∷◌, some, length, replicate, get_elem?,
  length-replicate,
}
use readelfobj_code.Base.Memory.{store_all, poke}
use readelfobj_code.Bytes.{little_host}
use readelfobj_code.Codes.{Result, ok}
use readelfobj_code.Elf.{GenericShdr, zero_shdr, ElfFiledata}
use readelfobj_code.Elf.Decompress.{Uncompressed, z_ok, Library, dwarf_elf_do_decompress}
use readelfobj_code.Elf.Decompress.Sizes.{IsLibrary, Replaces, dwarf_elf_do_decompress-Replaces}
use readelfobj_code.Elf.Layout.{IsSymbol}
use readelfobj_code.Elf.Strings.{dwarf_load_elf_symstr, dwarf_get_elf_symstr_string}
use readelfobj_code.Elf.Strings.Terminated.{IsString, dwarf_get_elf_symstr_string-IsString}
use readelfobj_code.Elf.Symbols.{
  dwarf_load_elf_symtab_symbols, dwarf_load_elf_symtab_symbols_all, symbols_loop, load_symbols_at,
}
use readelfobj_code.Elf.Symbols.All.{dwarf_load_elf_symtab_symbols_all_last}
use readelfobj_code.Elf.Symbols.Loaded.{
  LoadsSymbols, symbol_size, dwarf_load_elf_symtab_symbols-LoadsSymbols,
}
use readelfobj_code.ObjectRead.{dwarf_object_read_random}
use readelfobj_code.Tests.Elf.{opened, some_block}
use readelfobj_code.Tests.Files.{file_descriptor, file_descriptor-IsFile}

-- Memory is always there, and what is compressed becomes as many zeros as there is room for.
unfoldable library : Library
library = record {
  calloc = λ n. some (replicate n 0);
  malloc = λ n. some (replicate n 0);
  has_room = λ n. true;
  char_signed = true;
  uncompress = λ src room. z_ok (replicate room 0);
  zstd_decompress = λ src room. (replicate room 0, room);
}

given_bytes : Uncompressed → List ℕ
given_bytes (z_ok out) = out
given_bytes u = []

library-IsLibrary : IsLibrary library
unfolding library given_bytes
library-IsLibrary = record {
  zeroed = λ n block e. ap some_block (sym e);
  sized = λ n block e. ap (λ b. length (some_block b)) (sym e) ∙ length-replicate n 0;
  inflated = λ src room out e.
      omega (arith, ap (λ u. length (given_bytes u)) e, length-replicate {A = ℕ} room 0);
  inflated_zstd = λ src room. omega (arith, length-replicate {A = ℕ} room 0);
}

-- Twelve bytes of header for zlib, and two that become three.
abbrev packed : List ℕ
packed = 1 ∷ 0 ∷ 0 ∷ 0 ∷ 3 ∷ 0 ∷ 0 ∷ 0 ∷ 1 ∷ 0 ∷ 0 ∷ 0 ∷ 9 ∷ 9 ∷ []

abbrev packed_section : GenericShdr
packed_section = record zero_shdr { gh_flags = 0x800; gh_size = 14; gh_content = some packed }

dwarf_elf_do_decompress-Replaces_example :
    Replaces library library-IsLibrary packed_section
      (dwarf_elf_do_decompress little_host library opened packed_section)
dwarf_elf_do_decompress-Replaces_example =
    dwarf_elf_do_decompress-Replaces little_host library library-IsLibrary opened packed_section
      packed refl refl (ground arith) (ground arith) (ground arith)

-- A file with a relocation, a symbol, or two strings without a NUL at the end.
abbrev small_file : List ℕ
small_file = 0 ∷ 97 ∷ 0 ∷ 98 ∷ 99 ∷ replicate 20 7

abbrev small : ElfFiledata
small = record opened {
  f_fd = file_descriptor small_file;
  f_filesize = 25;
  f_shdr =
      zero_shdr
      ∷ record zero_shdr { gh_secnum = 1; gh_type = 4; gh_offset = 1; gh_size = 12 }
      ∷ record zero_shdr { gh_secnum = 2; gh_type = 9; gh_offset = 1; gh_size = 16 }
      ∷ [];
}

abbrev strings : GenericShdr
strings = record zero_shdr { gh_secnum = 1; gh_type = 3; gh_offset = 0; gh_size = 5 }

abbrev loaded_strings : GenericShdr
loaded_strings = record strings { gh_content = some (0 ∷ 97 ∷ 0 ∷ 98 ∷ 99 ∷ 0 ∷ []) }

abbrev with_strings : ElfFiledata
with_strings = record small { f_shdr = zero_shdr ∷ loaded_strings ∷ [] }

strings_loaded :
    dwarf_load_elf_symstr little_host library small strings ≡ some (loaded_strings, ok tt)
unfolding library dwarf_load_elf_symstr dwarf_object_read_random file_descriptor store_all poke
strings_loaded = refl

dwarf_get_elf_symstr_string-IsString_example :
    IsString small_file strings 3 (dwarf_get_elf_symstr_string with_strings 1 3)
dwarf_get_elf_symstr_string-IsString_example =
    dwarf_get_elf_symstr_string-IsString little_host library library-IsLibrary small small_file
      (file_descriptor-IsFile small_file (omega arith)) (omega arith) strings loaded_strings refl
      refl (ground arith) refl strings_loaded with_strings 1 3 (ground arith) refl (ground arith)

abbrev symbols : GenericShdr
symbols = record zero_shdr { gh_secnum = 1; gh_type = 2; gh_offset = 5; gh_size = 16 }

dwarf_load_elf_symtab_symbols-LoadsSymbols_example :
    LoadsSymbols
      (IsSymbol little_host small)
      (symbol_size small)
      small_file
      5
      1
      (dwarf_load_elf_symtab_symbols little_host library small symbols)
dwarf_load_elf_symtab_symbols-LoadsSymbols_example =
    dwarf_load_elf_symtab_symbols-LoadsSymbols little_host library library-IsLibrary small
      small_file (file_descriptor-IsFile small_file (omega arith)) symbols refl 1 refl

abbrev plain_section : GenericShdr
plain_section = record zero_shdr { gh_secnum = 2; gh_type = 9; gh_offset = 1; gh_size = 16 }

-- Two sections, the last of which has symbols.
abbrev with_symbols : ElfFiledata
with_symbols = record small {
  f_shdr = zero_shdr ∷ symbols ∷ [];
  f_loc_shdr = record { g_offset = 0; g_count = 2; g_entrysize = 40; g_totalsize = 80 };
}

symbols_all_done :
    dwarf_load_elf_symtab_symbols_all little_host library with_symbols ≡ some (with_symbols, ok tt)
unfolding dwarf_load_elf_symtab_symbols_all symbols_loop load_symbols_at
symbols_all_done = refl

abbrev success : Result (Unit {0})
success = ok tt

dwarf_load_elf_symtab_symbols_all_last_example :
    (success ≡ ok tt) × (get_elem? with_symbols.f_shdr 1 ≡ get_elem? with_symbols.f_shdr 1)
dwarf_load_elf_symtab_symbols_all_last_example =
    dwarf_load_elf_symtab_symbols_all_last little_host library with_symbols with_symbols success
      symbols_all_done 1 (omega arith)

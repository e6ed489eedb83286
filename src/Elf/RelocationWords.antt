-- ===== src/Elf/RelocationWords.antt =====
-- The relocations of src/dwarf_load_elf_headers.c as the words of their structures. The generic ones
-- come from `malloc`, so a field that no clause sets is `none`.
use readelfobj_code.Base.{
  ℕ, ◌+◌, ◌-◌, ◌*◌, ◌/◌, ◌%◌, ◌^◌, ◌&&◌, not, Bool, true, false, Option, none, some, List, leb,
  ◌==◌, if◌then◌else◌,
}
use readelfobj_code.Base.Memory.{◌>>=◌}
use readelfobj_code.Bytes.{Host, WordSwap, byte}
use readelfobj_code.Codes.{Result, ok, err, ErrCode, err_rel_section_size, err_rel_count_mismatch}
use readelfobj_code.Elf.{GenericRela, GenericShdr, ElfFiledata}
use readelfobj_code.Elf.Decompress.{Library}
use readelfobj_code.Elf.Headers.{word_of}
use readelfobj_code.Elf.Records.{record_loop}

-- `SIGN_EXTEND` of a word of 4 bytes. One of 8 bytes stays.
abbrev pub sign_extend : ℕ → ℕ
sign_extend v = if leb (2 ^ 31) v then v + (2 ^ 64 - 2 ^ 32) else v

-- A `char` as an unsigned word of 64 bits.
abbrev pub char_word : Bool → ℕ → ℕ
char_word char_signed c = if char_signed && leb 128 c then c + (2 ^ 64 - 2 ^ 8) else c

-- `dw_elf32_rela` of src/dw_elfstructs.h.
unfoldable pub words_of_rela32 : Host → WordSwap → List ℕ → GenericRela
words_of_rela32 host copy relp =
    let info = word_of host copy relp 4 4 in
    record {
      gr_isrela = some true;
      gr_offset = word_of host copy relp 0 4;
      gr_info = info;
      gr_sym = info / 2 ^ 8;
      gr_type = info % 2 ^ 8;
      gr_addend = sign_extend (word_of host copy relp 8 4);
      gr_type2 = none;
      gr_type3 = none;
    }

-- `dw_elf64_rela`, with the layouts of `r_info` for little-endian MIPS and for SPARC. `EM_MIPS` is 8,
-- `EM_SPARCV9` is 43, and `DW_ENDIAN_LITTLE` is 2.
unfoldable pub words_of_rela64 : Host → Library → ElfFiledata → List ℕ → GenericRela
words_of_rela64 host lib ep relp =
    let copy = ep.f_copy_word in
    let info = word_of host copy relp 8 8 in
    let plain : GenericRela = record {
      gr_isrela = some true;
      gr_offset = word_of host copy relp 0 8;
      gr_info = info;
      gr_sym = info / 2 ^ 32;
      gr_type = info % 2 ^ 32;
      gr_addend = word_of host copy relp 16 8;
      gr_type2 = none;
      gr_type3 = none;
    } in
    if (ep.f_machine == 8) && (ep.f_endian == 2)
    then record plain {
      gr_sym = word_of host copy relp 8 4;
      gr_type = char_word lib.char_signed (byte relp 15);
      gr_type2 = some (byte relp 14);
      gr_type3 = some (byte relp 13);
    }
    else if ep.f_machine == 43
    then record plain {
      gr_isrela = none;
      gr_sym = word_of host copy relp 8 4;
      gr_type = char_word lib.char_signed (byte relp 15);
    }
    else plain

-- `dw_elf32_rel`
unfoldable pub words_of_rel32 : Host → WordSwap → List ℕ → GenericRela
words_of_rel32 host copy relp =
    let info = word_of host copy relp 4 4 in
    record {
      gr_isrela = some false;
      gr_offset = word_of host copy relp 0 4;
      gr_info = info;
      gr_sym = info / 2 ^ 8;
      gr_type = info % 2 ^ 8;
      gr_addend = 0;
      gr_type2 = none;
      gr_type3 = none;
    }

-- `dw_elf64_rel`
unfoldable pub words_of_rel64 : Host → Library → ElfFiledata → List ℕ → GenericRela
words_of_rel64 host lib ep relp =
    let copy = ep.f_copy_word in
    let info = word_of host copy relp 8 8 in
    let plain : GenericRela = record {
      gr_isrela = some false;
      gr_offset = word_of host copy relp 0 8;
      gr_info = info;
      gr_sym = info / 2 ^ 32;
      gr_type = info % 2 ^ 32;
      gr_addend = 0;
      gr_type2 = none;
      gr_type3 = none;
    } in
    if (ep.f_machine == 8) && (ep.f_endian == 2)
    then record plain {
      gr_sym = word_of host copy relp 8 4;
      gr_type = char_word lib.char_signed (byte relp 15);
      gr_type2 = some (byte relp 14);
      gr_type3 = some (byte relp 13);
    }
    else plain

module _ (entry : List ℕ → GenericRela) (reclen : ℕ) (mismatch : ErrCode) where
  -- The guards and the loop that the four functions below share, for an array of `room` elements.
  unfoldable pub generic_rel_from :
      ElfFiledata → GenericShdr → List ℕ → ℕ → Option (Result (List GenericRela))
  unfolding record_loop
  generic_rel_from ep gsh relp room =
      let ecount = gsh.gh_size / reclen in
      if not (gsh.gh_size == ecount * reclen)
      then some (err mismatch)
      else if leb ep.f_filesize gsh.gh_size
      then some (err err_rel_section_size)
      else (record_loop entry reclen room relp ecount >>= λ grel. some (ok grel))

unfoldable pub generic_rel_from_rela32 :
    Host → ElfFiledata → GenericShdr → List ℕ → ℕ → Option (Result (List GenericRela))
unfolding generic_rel_from words_of_rela32
generic_rel_from_rela32 host ep =
    generic_rel_from (words_of_rela32 host ep.f_copy_word) 12 err_rel_section_size ep

unfoldable pub generic_rel_from_rela64 :
    Host → Library → ElfFiledata → GenericShdr → List ℕ → ℕ → Option (Result (List GenericRela))
unfolding generic_rel_from words_of_rela64
generic_rel_from_rela64 host lib ep =
    generic_rel_from (words_of_rela64 host lib ep) 24 err_rel_section_size ep

unfoldable pub generic_rel_from_rel32 :
    Host → ElfFiledata → GenericShdr → List ℕ → ℕ → Option (Result (List GenericRela))
unfolding generic_rel_from words_of_rel32
generic_rel_from_rel32 host ep =
    generic_rel_from (words_of_rel32 host ep.f_copy_word) 8 err_rel_section_size ep

unfoldable pub generic_rel_from_rel64 :
    Host → Library → ElfFiledata → GenericShdr → List ℕ → ℕ → Option (Result (List GenericRela))
unfolding generic_rel_from words_of_rel64
generic_rel_from_rel64 host lib ep =
    generic_rel_from (words_of_rel64 host lib ep) 16 err_rel_count_mismatch ep

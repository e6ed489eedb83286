-- ===== src/Elf/Decompress.antt =====
-- src/dwarf_elf_decompress.c: the bytes of a compressed section in place of the ones that were read,
-- with zlib and zstd as parameters. Messages to the user are not modelled.
pub mod Sizes
use readelfobj_code.Base.{
  ℕ, ◌+◌, ◌-◌, ◌*◌, ◌/◌, ◌^◌, ◌||◌, bit_and, Bool, true, false, Option, none, some, List, [],
  length, take, drop, ltb, leb, ◌==◌, if◌then◌else◌,
}
use readelfobj_code.Base.Memory.{◌>>=◌, store_all}
use readelfobj_code.Base.Text.{codes}
use readelfobj_code.Base.Words.{u64}
use readelfobj_code.Bytes.{Host, WordSwap, asnar, big_value_from}
use readelfobj_code.Codes.{
  Result, ok, err, no_entry, err_not_stored, alloc_fail, zdebug_input_format_odd, zlib_buf_error,
  zlib_data_error, zlib_section_short,
}
use readelfobj_code.Elf.{GenericShdr, ElfFiledata}
use readelfobj_code.Elf.Flags.{same_start, same_string}

-- What `uncompress` answers: `Z_OK` with the bytes that it stores, `Z_BUF_ERROR`, `Z_MEM_ERROR`, or
-- another code.
pub data Uncompressed : Type 0 where
  z_ok : (out : List ℕ) → Uncompressed
  z_buf_error z_mem_error z_other_error : Uncompressed

-- What the libraries give: `calloc(1,n)` and `malloc(n)`, whether there is an array of `count`
-- generic entries, and the two decompressors, each with the compressed bytes and the room for the
-- others. `zstd_decompress` gives the bytes that are stored and the size that is returned. Whether
-- `char` is signed is the compiler's choice.
pub record Library : Type 0 where
  pub calloc : ℕ → Option (List ℕ)
  pub malloc : ℕ → Option (List ℕ)
  pub has_room : ℕ → Bool
  pub char_signed : Bool
  pub uncompress : List ℕ → ℕ → Uncompressed
  pub zstd_decompress : List ℕ → ℕ → List ℕ × ℕ

-- `ASNARLRAW` from a pointer to `mem`. More than 8 bytes leave the target, and fewer than `l` bytes
-- leave the block.
unfoldable pub asnarlraw : Host → WordSwap → List ℕ → ℕ → Option ℕ
unfolding asnar
asnarlraw host copy mem l =
    if ltb 8 l || ltb (length mem) l then none else some (asnar host copy (take l mem))

-- The compressed bytes, and the size behind the header: where they start, how many, how many they
-- become, and whether they are for zstd. `SHF_COMPRESSED` is 0x800. Behind the first test the prefix
-- is there to be compared.
unfoldable pub compressed_part :
    Host → ElfFiledata → GenericShdr → List ℕ → Option (Result (ℕ × ℕ × ℕ × Bool))
unfolding asnarlraw big_value_from same_string
compressed_part host ep psh src =
    if ltb psh.gh_size 12
    then some (err zlib_section_short)
    else if ltb (length src) 12
    then none
    else if same_start (codes "ZLIB") src 4
    then some (ok (12, psh.gh_size - 12, big_value_from 0 (take 8 (drop 4 src)), false))
    else if bit_and psh.gh_flags 0x800 == 0
    then some (err zdebug_input_format_odd)
    else let fldsize = ep.f_pointersize / 8 in
      let structsize = 3 * fldsize in
      asnarlraw host ep.f_copy_word src 4 >>= λ type.
      asnarlraw host ep.f_copy_word (drop fldsize src) fldsize >>= λ size. some (
        if (type == 1) || (type == 2)
        then ok (structsize, u64 (psh.gh_size + 2 ^ 64 - structsize), size, type == 2)
        else err zdebug_input_format_odd)

-- The bytes that a decompressor stores in `dest`, or why there are none.
unfoldable pub inflate : Library → List ℕ → ℕ → Bool → List ℕ → Option (Result (List ℕ))
inflate lib src destlen true dest =
    let (out, zsize) = lib.zstd_decompress src destlen in
    store_all dest 0 out >>= λ filled.
    some (if zsize == destlen then ok filled else err zlib_data_error)
inflate lib src destlen false dest = elim (lib.uncompress src destlen) [
  | z_ok out ↦ store_all dest 0 out >>= λ filled. some (ok filled)
  | z_buf_error ↦ some (err zlib_buf_error)
  | z_mem_error ↦ some (err alloc_fail)
  | z_other_error ↦ some (err zlib_data_error)
]

-- The part behind the header, given with its start and its size, and what the section keeps. A
-- part that leaves the block is a fault.
unfoldable pub replace_content :
    Library → GenericShdr → List ℕ → ℕ × ℕ × ℕ × Bool → Option (GenericShdr × Result (Unit {0}))
unfolding inflate
replace_content lib psh content (start, srclen, destlen, zstd) =
    if ltb psh.gh_size (u64 (start + srclen))
    then some (psh, err err_not_stored)
    else elim (lib.malloc destlen) [
      | none ↦ some (psh, err err_not_stored)
      | some dest ↦
          if ltb (length content) (start + srclen)
          then none
          else inflate lib (take srclen (drop start content)) destlen zstd dest >>= λ res.
              elim res [
                | no_entry ↦ some (psh, no_entry)
                | err code ↦ some (psh, err code)
                | ok filled ↦ some (
                  record psh {
                    gh_content = some filled;
                    gh_size = destlen;
                    gh_compressed_len = srclen;
                  },
                  ok tt,
                )
              ]
    ]

-- The bytes behind a pointer, none behind a null pointer.
abbrev pub bytes_at : Option (List ℕ) → List ℕ
bytes_at none = []
bytes_at (some content) = content

-- Whether a pointer is not null.
abbrev pub is_there : Option (List ℕ) → Bool
is_there none = false
is_there (some content) = true

unfoldable pub dwarf_elf_do_decompress :
    Host → Library → ElfFiledata → GenericShdr → Option (GenericShdr × Result (Unit {0}))
unfolding compressed_part replace_content
dwarf_elf_do_decompress host lib ep psh =
    let content = bytes_at psh.gh_content in
    compressed_part host ep psh content >>= λ part. elim part [
      | no_entry ↦ some (psh, no_entry)
      | err code ↦ some (psh, err code)
      | ok found ↦ replace_content lib psh content found
    ]

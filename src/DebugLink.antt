-- ===== src/DebugLink.antt =====
-- src/dwarf_debuglink.c: the sections that name a file with debugging information. A section's
-- content is a block of memory, and pointers into it are indices; a step outside it is a fault,
-- `none`. Bytes that a read which fails leaves in a block are not modelled.
pub mod Strings
pub mod Loaded
pub mod Link
pub mod Words
pub mod Owner
pub mod Note
use readelfobj_code.Base.{
  ℕ, zero, suc, ◌+◌, ◌-◌, ◌%◌, ◌^◌, Bool, true, false, Option, none, some, List, [], ◌∷◌, drop,
  get_elem?, length, take, leb, ltb, ◌==◌, if◌then◌else◌,
}
use readelfobj_code.Base.Memory.{◌>>=◌, poke, store_all, strlen}
use readelfobj_code.Base.Words.{u32, u64}
use readelfobj_code.Bytes.{Host, WordSwap, asnar}
use readelfobj_code.Codes.{
  Result, ok, err, no_entry, ErrCode, form_string_bad_string, corrupt_gnu_debuglink,
  corrupt_note_gnu_debugid, corrupt_gnu_debugid_string, corrupt_gnu_debugid_size, alloc_fail,
  err_not_stored,
}
use readelfobj_code.ObjectRead.{Descriptor, dwarf_object_read_random}

-- `while (p < end)`: with the bytes from `p` on and how many there are before `end`, whether a NUL
-- is met.
unfoldable pub meets_nul : List ℕ → ℕ → Option Bool
meets_nul mem zero = some false
meets_nul [] (suc n) = none
meets_nul (c ∷ mem) (suc n) = if c == 0 then some true else meets_nul mem n

-- The three pointers are indices into one block.
unfoldable pub dwarf_check_string_valid : List ℕ → ℕ → ℕ → ℕ → ErrCode → Option (Result (Unit {0}))
unfolding meets_nul
dwarf_check_string_valid block start p end_at suggested_error =
    if ltb p start
    then some (err suggested_error)
    else if leb end_at p
    then some (err suggested_error)
    else (meets_nul (drop p block) (end_at - p) >>= λ found.
        some (if found then ok tt else err suggested_error))

-- The fields of a section header that are used here. `none` is a content that is not loaded.
pub record Section : Type 0 where
  pub gh_size : ℕ
  pub gh_offset : ℕ
  pub gh_content : Option (List ℕ)

-- The link's name starts the block, and its crc stands at `crcptr`.
unfoldable pub link_in_area : List ℕ → ℕ → Option (Result ℕ)
unfolding dwarf_check_string_valid strlen
link_in_area area secsize =
    dwarf_check_string_valid area 0 0 secsize form_string_bad_string >>= λ valid. elim valid [
      | no_entry ↦ some no_entry
      | err code ↦ some (err code)
      | ok _ ↦ strlen area >>= λ len.
          let namelen = u32 len in
          let m = u32 (namelen + 1) % 4 in
          let incr = if m == 0 then 0 else 4 - m in
          let crcptr = namelen + 1 + incr in
          some (if crcptr + 4 == secsize then ok crcptr else err corrupt_gnu_debuglink)
    ]

-- What a read has put into a block.
abbrev pub read_into : List ℕ → Result (List ℕ) → Option (List ℕ)
read_into block (ok bytes) = store_all block 0 bytes
read_into block _ = some block

-- What a build id is: `build_id_returned` points to its bytes, `owner_name_returned` to a name.
pub record BuildId : Type 0 where
  pub type_returned : ℕ
  pub owner_name_returned : ℕ
  pub build_id_length_returned : ℕ
  pub build_id_returned : ℕ

-- `nameptr` is at 12, behind `struct buildid_s`.
abbrev pub last_of_name : ℕ → ℕ
last_of_name namesize = u64 (12 + namesize + 0xffff_ffff_ffff_ffff)

-- The owner's name, with a NUL forced at its end, and the sizes.
unfoldable pub checked_owner : List ℕ → ℕ → ℕ → ℕ → ℕ → Option (Result BuildId)
unfolding dwarf_check_string_valid strlen
checked_owner area secsize namesize descrsize type =
    dwarf_check_string_valid area 12 12 (12 + namesize) corrupt_gnu_debugid_string >>= λ valid.
    elim valid [
      | no_entry ↦ some no_entry
      | err code ↦ some (err code)
      | ok _ ↦ strlen (drop 12 area) >>= λ len. some (
          if u64 (len + 1) == namesize
          then (if ltb secsize (u64 (12 + namesize + descrsize))
              then err corrupt_gnu_debugid_size
              else ok (record {
                type_returned = type;
                owner_name_returned = 12;
                build_id_length_returned = descrsize;
                build_id_returned = 12 + namesize;
              }))
          else err corrupt_gnu_debugid_string)
    ]

-- The tests on the description's size only print. The last byte of the name is read where the size
-- says, and a NUL is put there.
unfoldable pub note_in_area : List ℕ → ℕ → ℕ → ℕ → ℕ → Option (List ℕ × Result BuildId)
unfolding checked_owner
note_in_area area secsize namesize descrsize type =
    if leb secsize namesize
    then some (area, err err_not_stored)
    else (get_elem? area (last_of_name namesize) >>= λ last.
        (if last == 0 then some area else poke area (last_of_name namesize) 0) >>= λ forced.
        checked_owner forced secsize namesize descrsize type >>= λ result. some (forced, result))

-- The three words of `struct buildid_s` start the section.
unfoldable pub buildid_in_area : Host → WordSwap → List ℕ → ℕ → Option (List ℕ × Result BuildId)
unfolding note_in_area
buildid_in_area host copy area secsize =
    note_in_area area secsize (asnar host copy (take 4 area))
      (asnar host copy (take 4 (drop 4 area))) (asnar host copy (take 4 (drop 8 area)))

module _ (malloc : ℕ → Option (List ℕ)) (fd : Descriptor) (filesize : ℕ) where
  -- The block for a section's content, with a byte more than the section.
  abbrev pub content_block : Section → Option (List ℕ)
  content_block s = elim s.gh_content [
    | some block ↦ some block
    | none ↦ malloc (u64 (s.gh_size + 1))
  ]

  abbrev pub read_section : Section → Result (List ℕ)
  read_section s = dwarf_object_read_random fd s.gh_offset s.gh_size filesize

  -- The NUL behind the section is put before the answer of the read is looked at.
  unfoldable pub extract_debuglink : Section → Option (Section × Result ℕ)
  unfolding link_in_area
  extract_debuglink s = elim (content_block s) [
    | none ↦ some (s, err alloc_fail)
    | some block ↦ read_into block (read_section s) >>= λ filled.
        poke filled s.gh_size 0 >>= λ area.
        let s' = record s { gh_content = some area } in
        if s.gh_size == 0 then some (s', no_entry) else elim (read_section s) [
          | no_entry ↦ some (s', no_entry)
          | err code ↦ some (s', err code)
          | ok _ ↦ link_in_area area s.gh_size >>= λ result. some (s', result)
        ]
  ]

  unfoldable pub extract_buildid : Host → WordSwap → Section → Option (Section × Result BuildId)
  unfolding buildid_in_area
  extract_buildid host copy s = elim (content_block s) [
    | none ↦ some (s, err alloc_fail)
    | some block ↦
        let kept = record s { gh_content = some block } in
        if ltb s.gh_size (12 + 4)
        then some (kept, err corrupt_note_gnu_debugid)
        else elim (read_section s) [
          | no_entry ↦ some (kept, no_entry)
          | err code ↦ some (kept, err code)
          | ok bytes ↦ store_all block 0 bytes >>= λ filled. poke filled s.gh_size 0 >>= λ area.
              buildid_in_area host copy area s.gh_size >>= λ (area', result).
              some (record s { gh_content = some area' }, result)
        ]
  ]

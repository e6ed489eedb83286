-- ===== src/Elf/Groups.antt =====
-- The section groups of src/dwarf_load_elf_headers.c. Messages to the user are not modelled.
pub mod Marked
pub mod Read
pub mod Answered
pub mod Looks
pub mod Dwarf
use readelfobj_code.Base.{
  ℕ, zero, suc, ◌+◌, ◌-◌, ◌*◌, ◌/◌, Bool, true, false, ◌&&◌, ◌||◌, not, Option, none, some, List,
  [], ◌∷◌, length, take, drop, get_elem?, set, ltb, leb, ◌==◌, if◌then◌else◌,
}
use readelfobj_code.Base.Memory.{◌>>=◌, store_all}
use readelfobj_code.Base.Text.{codes}
use readelfobj_code.Base.Words.{u64}
use readelfobj_code.Bytes.{Host, plain, swapping, asnar}
use readelfobj_code.Codes.{
  Result, ok, err, no_entry, err_malloc, err_toosmall, err_bad_type_size, err_group_error,
}
use readelfobj_code.Elf.{GenericShdr, ElfFiledata}
use readelfobj_code.Elf.Flags.{
  is_empty_section, elf_sht_groupsec, elf_flagmatches, smaller_of, string_endswith,
  dwarf_load_elf_section_is_dwarf,
}
use readelfobj_code.Elf.Sections.{struct_at}
use readelfobj_code.ObjectRead.{dwarf_object_read_random}

-- The sections with the marks set so far, and the answer.
abbrev pub Marks : Type 0
Marks = List GenericShdr × Result (List ℕ)

-- A member in front of the ones of an answer.
abbrev pub add_member : ℕ → Marks → Marks
add_member lesser (shdrs, ok members) = (shdrs, ok (lesser ∷ members))
add_member lesser (shdrs, err code) = (shdrs, err code)
add_member lesser (shdrs, no_entry) = (shdrs, no_entry)

-- The index that a record of the group means: the smaller of its two readings. Zero is none, and an
-- index that is too large either way is none as well.
unfoldable pub member_of : Host → ℕ → List ℕ → Option ℕ
unfolding smaller_of
member_of host g_count dblock =
    let gseca = asnar host plain dblock in
    let gsecb = asnar host swapping dblock in
    let lesser = (smaller_of gseca gsecb).0 in
    if lesser == 0
    then none
    else if leb g_count lesser && leb g_count gsecb
    then none
    else some lesser

-- A member is stored in the eight bytes at `slots`, the block of the array from `grouparray+i` on, and
-- has its section marked with the group's number, unless that section has one. `rest` is the loop from
-- there on.
abbrev pub mark_member :
    ℕ → List GenericShdr → List ℕ → (List GenericShdr → Option Marks) → Option ℕ → Option Marks
mark_member number shdrs slots rest none = some (shdrs, err err_group_error)
mark_member number shdrs slots rest (some lesser) = struct_at 8 slots >>= λ slot.
    get_elem? shdrs lesser >>= λ targ.
    if targ.gh_section_group_number == 0
    then (rest (set shdrs lesser (record targ { gh_section_group_number = number })) >>= λ marks.
        some (add_member lesser marks))
    else some (shdrs, err err_group_error)

-- The loop over the records of a group. The numbers that it stores are the members of the answer; the
-- block that they go to has to have room for each of them.
unfoldable pub group_loop : Host → ℕ → ℕ → List ℕ → List ℕ → ℕ → List GenericShdr → Option Marks
unfolding member_of
group_loop host g_count number dp slots zero shdrs = some (shdrs, ok [])
group_loop host g_count number dp slots (suc rounds) shdrs = struct_at 4 dp >>= λ dblock.
    mark_member number shdrs slots
      (λ marked. group_loop host g_count number (drop 4 dp) (drop 8 slots) rounds marked)
      (member_of host g_count dblock)

-- What is kept of a group: its array, and the numbers for the group that comes after it.
unfoldable pub keep_group : ElfFiledata → ℕ → ℕ → Marks → Option (ElfFiledata × Result (Unit {0}))
keep_group ep secnum count (shdrs, no_entry) = some (record ep { f_shdr = shdrs }, no_entry)
keep_group ep secnum count (shdrs, err code) = some (record ep { f_shdr = shdrs }, err code)
keep_group ep secnum count (shdrs, ok members) = get_elem? shdrs secnum >>= λ psh.
    let foundone = not (length members == 0) in
    some (
      record ep {
        f_shdr = set shdrs secnum (record psh {
          gh_sht_group_array = some (1 ∷ members);
          gh_sht_group_array_count = count;
        });
        f_sg_next_group_number =
            if foundone then u64 (ep.f_sg_next_group_number + 1) else ep.f_sg_next_group_number;
        f_sht_group_type_section_count =
            if foundone
            then u64 (ep.f_sht_group_type_section_count + 1)
            else ep.f_sht_group_type_section_count;
      },
      ok tt,
    )

module _ (host : Host) (malloc : ℕ → Option (List ℕ)) where
  -- The array of `count` numbers, and the flag word in front of the records.
  unfoldable pub group_in_area :
      ElfFiledata → ℕ → ℕ → List ℕ → Option (ElfFiledata × Result (Unit {0}))
  unfolding group_loop keep_group
  group_in_area ep secnum count area = elim (malloc (u64 (count * 8))) [
    | none ↦ some (ep, err err_malloc)
    | some grouparray ↦ struct_at 4 area >>= λ dblock.
        let va = asnar host plain dblock in
        if not (va == 1) && not (va == 0x100_0000)
        then some (ep, err err_group_error)
        else (struct_at 8 grouparray >>= λ first.
            group_loop host ep.f_loc_shdr.g_count ep.f_sg_next_group_number (drop 4 area)
              (drop 8 grouparray) (count - 1) ep.f_shdr
            >>= λ marks. keep_group ep secnum count marks)
  ]

  -- `psh` is the section with index `secnum`. A division by zero is a fault.
  unfoldable pub read_gs_section_group :
      ElfFiledata → ℕ → GenericShdr → Option (ElfFiledata × Result (Unit {0}))
  unfolding group_in_area
  read_gs_section_group ep secnum psh = elim psh.gh_sht_group_array [
    | some array ↦ some (ep, ok tt)
    | none ↦ if ltb psh.gh_size 4 then some (ep, err err_toosmall) else elim (malloc psh.gh_size) [
      | none ↦ some (ep, err err_malloc)
      | some block ↦
          if psh.gh_entsize == 0
          then none
          else let count = psh.gh_size / psh.gh_entsize in
            if ltb ep.f_loc_shdr.g_count count
            then some (ep, err err_group_error)
            else if not (psh.gh_entsize == 4)
            then some (ep, err err_bad_type_size)
            else elim (dwarf_object_read_random ep.f_fd psh.gh_offset psh.gh_size ep.f_filesize) [
              | no_entry ↦ some (ep, no_entry)
              | err code ↦ some (ep, err code)
              | ok bytes ↦ store_all block 0 bytes >>= λ area. group_in_area ep secnum count area
            ]
    ]
  ]

  -- The first loop, from the section with index `i` on: groups are read and `SHF_GROUP` is counted.
  unfoldable pub groups_loop : ℕ → ℕ → ElfFiledata → Option (ElfFiledata × Result (Unit {0}))
  unfolding read_gs_section_group
  groups_loop zero i ep = some (ep, ok tt)
  groups_loop (suc rounds) i ep = get_elem? ep.f_shdr i >>= λ psh.
      if is_empty_section psh.gh_type
      then groups_loop rounds (i + 1) ep
      else if not (elf_sht_groupsec psh.gh_type psh.gh_namestring)
      then groups_loop rounds (i + 1) (
          if elf_flagmatches psh.gh_flags 512
          then record ep {
            f_shf_group_flag_section_count = u64 (ep.f_shf_group_flag_section_count + 1);
          }
          else ep)
      else (read_gs_section_group ep i psh >>= λ (ep', res). elim res [
        | ok done ↦ groups_loop rounds (i + 1) ep'
        | err code ↦ some (ep', err code)
        | no_entry ↦ some (ep', no_entry)
      ])

-- A section that is no group, in the second loop: whether it holds DWARF, and its number.
unfoldable pub mark_dwarf : ElfFiledata → ℕ → GenericShdr → ElfFiledata × Result (Unit {0})
mark_dwarf ep i psh =
    if string_endswith psh.gh_namestring (codes ".dwo")
    then (if not (psh.gh_section_group_number == 0) then (ep, err err_group_error) else (
      record ep {
        f_shdr = set ep.f_shdr i (record psh { gh_is_dwarf = true; gh_section_group_number = 2 });
        f_dwo_group_section_count = u64 (ep.f_dwo_group_section_count + 1);
      },
      ok tt,
    ))
    else if dwarf_load_elf_section_is_dwarf psh.gh_namestring
    then (
      record ep {
        f_shdr = set ep.f_shdr i (record psh {
          gh_is_dwarf = true;
          gh_section_group_number =
              if psh.gh_section_group_number == 0 then 1 else psh.gh_section_group_number;
        });
      },
      ok tt,
    )
    else (ep, ok tt)

-- The second loop.
unfoldable pub dwarf_loop : ℕ → ℕ → ElfFiledata → Option (ElfFiledata × Result (Unit {0}))
unfolding mark_dwarf
dwarf_loop zero i ep = some (ep, ok tt)
dwarf_loop (suc rounds) i ep = get_elem? ep.f_shdr i >>= λ psh.
    if is_empty_section psh.gh_type || elf_sht_groupsec psh.gh_type psh.gh_namestring
    then dwarf_loop rounds (i + 1) ep
    else let (ep', res) = mark_dwarf ep i psh in
      elim res [
        | ok done ↦ dwarf_loop rounds (i + 1) ep'
        | err code ↦ some (ep', err code)
        | no_entry ↦ some (ep', no_entry)
      ]

-- Both loops start at section zero and make one round less than there are sections.
unfoldable pub elf_setup_all_section_groups :
    Host → (ℕ → Option (List ℕ)) → ElfFiledata → Option (ElfFiledata × Result (Unit {0}))
unfolding groups_loop dwarf_loop
elf_setup_all_section_groups host malloc ep =
    let rounds = ep.f_loc_shdr.g_count - 1 in
    groups_loop host malloc rounds 0 ep >>= λ (ep', res). elim res [
      | ok done ↦ dwarf_loop rounds 0 ep'
      | err code ↦ some (ep', err code)
      | no_entry ↦ some (ep', no_entry)
    ]

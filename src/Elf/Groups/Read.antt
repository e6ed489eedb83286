-- ===== src/Elf/Groups/Read.antt =====
-- `read_gs_section_group` of src/dwarf_load_elf_headers.c: what a group keeps and marks.
use readelfobj_code.Base.{
  ℕ, ◌+◌, ◌-◌, ◌*◌, ◌/◌, ◌^◌, ◌≤◌, ◌<◌, ◌≡◌, ◌≢◌, refl, sym, ap, ◌∙◌, arith, inl, inr, true, false,
  ◌&&◌, not, Option, none, some, List, ◌∷◌, length, length-drop, take, drop, get_elem?,
  get_elem?-set_self, get_elem?-set_ne, get_elem?-inside, All-map, set, ltb, leb, ◌==◌,
  if◌then◌else◌, Bool-cases, Option-cases,
}
use mathlib.Core.Path.{subst}
use readelfobj_code.Base.Memory.{store_all-whole}
use readelfobj_code.Base.Words.{u64}
use readelfobj_code.Bytes.{Host, plain, asnar}
use readelfobj_code.Codes.{
  Result, ok, err, no_entry, err_malloc, err_toosmall, err_bad_type_size, err_group_error,
  err-neq-ok, no_entry-neq-ok, Result-cases, ErrCode,
}
use readelfobj_code.Elf.{GenericShdr, ElfFiledata}
use readelfobj_code.Elf.Groups.{Marks, keep_group, group_in_area, read_gs_section_group}
use readelfobj_code.Elf.Groups.Marked.{
  group_at, number_in, IsGrouped, GroupAnswer, group_loop-GroupAnswer,
}
use readelfobj_code.ObjectRead.{Descriptor, IsFile, dwarf_object_read_random}
use readelfobj_code.ObjectRead.Ranges.{length-slice, dwarf_object_read_random-slice}

abbrev array_in : Option GenericShdr → Option (List ℕ)
array_in none = none
array_in (some s) = s.gh_sht_group_array

-- The group array that a section keeps.
abbrev pub array_at : List GenericShdr → ℕ → Option (List ℕ)
array_at shdrs i = array_in (get_elem? shdrs i)

-- Only the numbers of the sections count.
IsGrouped-after :
    {g_count number : ℕ} {before after after' : List GenericShdr} {members : List ℕ}
    → ((i : ℕ) → group_at after' i ≡ group_at after i)
    → IsGrouped g_count number before after members
    → IsGrouped g_count number before after' members
IsGrouped-after {number} {members} same g = record {
  in_range = g.in_range;
  distinct = g.distinct;
  was_free = g.was_free;
  marked = All-map (λ m e. same m ∙ e) members g.marked;
  others = λ i h. same i ∙ g.others i h;
}

-- A section that is put back with its number.
group_at-set :
    (shdrs : List GenericShdr) (secnum : ℕ) (psh psh' : GenericShdr)
    → get_elem? shdrs secnum ≡ some psh
    → psh'.gh_section_group_number ≡ psh.gh_section_group_number
    → (i : ℕ) → group_at (set shdrs secnum psh') i ≡ group_at shdrs i
group_at-set shdrs secnum psh psh' found same i = elim (Bool-cases (secnum == i)) [
  | inl z ↦
      let here : secnum ≡ i = ground arith in
      subst (λ k. group_at (set shdrs secnum psh') k ≡ group_at shdrs k) here
        (ap number_in (get_elem?-set_self shdrs secnum psh' found)
          ∙ same
          ∙ sym (ap number_in found))
  | inr z ↦ ap number_in (get_elem?-set_ne shdrs secnum i psh' (ground arith))
]

module _ (ep : ElfFiledata) (secnum : ℕ) (numbered : ep.f_sg_next_group_number ≢ 0) where
  -- What an answer for the group in the section with index `secnum` is: on success, `1` and the
  -- members are kept as its array, one number for each four bytes.
  abbrev pub ReadsGroup : ℕ → Option (ElfFiledata × Result (Unit {0})) → Type 0
  ReadsGroup count answer =
      (r : ElfFiledata × Result (Unit {0})) × (answer ≡ some r)
      × (r.1 ≡ ok tt
          → (members : List ℕ) × (array_at r.0.f_shdr secnum ≡ some (1 ∷ members))
            × (length members + 1 ≡ count)
            × IsGrouped ep.f_loc_shdr.g_count ep.f_sg_next_group_number ep.f_shdr r.0.f_shdr
                members)

  refused :
      {answer : Option (ElfFiledata × Result (Unit {0}))} (count : ℕ) (ep' : ElfFiledata)
      (code : ErrCode)
      → answer ≡ some (ep', err code)
      → ReadsGroup count answer
  refused count ep' code e = ((ep', err code), e, λ q. absurd (err-neq-ok q))

  keep_group-ReadsGroup :
      (count : ℕ) (marks : Marks)
      → 1 ≤ count
      → secnum < length ep.f_shdr
      → GroupAnswer ep.f_loc_shdr.g_count ep.f_sg_next_group_number numbered
          (count - 1)
          ep.f_shdr
          marks
      → ReadsGroup count (keep_group ep secnum count marks)
  unfolding keep_group
  keep_group-ReadsGroup count (shdrs, no_entry) one inside answer =
      ((record ep { f_shdr = shdrs }, no_entry), refl, λ q. absurd (no_entry-neq-ok q))
  keep_group-ReadsGroup count (shdrs, err code) one inside answer =
      refused count (record ep { f_shdr = shdrs }) code refl
  keep_group-ReadsGroup count (shdrs, ok members) one inside (same, grouped) =
      let (psh, found) = get_elem?-inside shdrs secnum (omega (arith, same)) in
      let (g, n) = grouped members refl in
      let kept = record psh {
        gh_sht_group_array = some (1 ∷ members);
        gh_sht_group_array_count = count;
      } in
      let foundone = not (length members == 0) in
      (
        (
          record ep {
            f_shdr = set shdrs secnum kept;
            f_sg_next_group_number =
                if foundone then u64 (ep.f_sg_next_group_number + 1) else ep.f_sg_next_group_number;
            f_sht_group_type_section_count =
                if foundone
                then u64 (ep.f_sht_group_type_section_count + 1)
                else ep.f_sht_group_type_section_count;
          },
          ok tt,
        ),
        rw found refl,
        λ (q : ok tt ≡ ok tt). (
          members,
          ap array_in (get_elem?-set_self shdrs secnum kept found),
          omega (arith, n),
          IsGrouped-after (group_at-set shdrs secnum psh kept found refl) g,
        ),
      )

  module _ (host : Host) (malloc : ℕ → Option (List ℕ))
      (blocks : (n : ℕ) (block : List ℕ) → malloc n ≡ some block → length block ≡ n)
      (fd : Descriptor) (bytes : List ℕ) (file : IsFile fd bytes) (is_fd : ep.f_fd ≡ fd)
      (all_there : ep.f_loc_shdr.g_count ≤ length ep.f_shdr)
      (inside : secnum < length ep.f_shdr) where
    group_in_area-ReadsGroup :
        (count : ℕ) (area : List ℕ)
        → 1 ≤ count
        → 4 * count ≤ length area
        → count * 8 < 2 ^ 64
        → ReadsGroup count (group_in_area host malloc ep secnum count area)
    unfolding group_in_area
    group_in_area-ReadsGroup count area one room no_wrap =
        elim (Option-cases (malloc (u64 (count * 8)))) [
          | inl m ↦ refused count ep err_malloc (rw (group_in_area, m) refl)
          | inr (array, m) ↦
              let size : length array ≡ count * 8 =
                blocks (u64 (count * 8)) array m ∙ omega arith in
              let first : leb 8 (length array) ≡ true = ground arith in
              let flags : leb 4 (length area) ≡ true = ground arith in
              let va = asnar host plain (take 4 area) in
              elim (Bool-cases (not (va == 1) && not (va == 0x100_0000))) [
                | inl v ↦ refused count ep err_group_error (rw (group_in_area, m, flags, v) refl)
                | inr v ↦
                    let (marks, looped, answer) =
                      group_loop-GroupAnswer ep.f_loc_shdr.g_count ep.f_sg_next_group_number
                        numbered host (drop 4 area) (drop 8 array) (count - 1) ep.f_shdr
                        (omega (arith, length-drop 4 area)) (omega (arith, length-drop 8 array))
                        all_there in
                    let steps : group_in_area host malloc ep secnum count area
                        ≡ keep_group ep secnum count marks =
                      rw (group_in_area, m, flags, v, first, looped) refl in
                    subst (ReadsGroup count) (sym steps)
                      (keep_group-ReadsGroup count marks one inside answer)
              ]
        ]

    -- A section that has no group array yet and whose entry size is not zero: `read_gs_section_group`
    -- never leaves the block of the section, the block of the group array or the array of sections,
    -- whatever the section holds. When it is
    -- `DW_DLV_OK`, the section has an array of one number for each four bytes, 1 and the members, which
    -- are different existing sections behind section zero; each was in no group and is now in this
    -- one, and every other section is in the group where it was.
    pub read_gs_section_group-ReadsGroup :
        (psh : GenericShdr)
        → psh.gh_sht_group_array ≡ none
        → psh.gh_entsize ≢ 0
        → ReadsGroup (psh.gh_size / 4) (read_gs_section_group host malloc ep secnum psh)
    unfolding read_gs_section_group
    read_gs_section_group-ReadsGroup psh fresh entries =
        let divides : (psh.gh_entsize == 0) ≡ false = ground arith in
        let count = psh.gh_size / 4 in
        let is_four : (psh.gh_entsize == 4) ≡ true → psh.gh_entsize ≡ 4 = λ c. ground arith in
        let at_least_one : ltb psh.gh_size 4 ≡ false → 1 ≤ psh.gh_size / 4 = λ a. ground arith in
        elim (Bool-cases (ltb psh.gh_size 4)) [
          | inl a ↦ refused count ep err_toosmall (rw (read_gs_section_group, fresh, a) refl)
          | inr a ↦ elim (Option-cases (malloc psh.gh_size)) [
            | inl m ↦ refused count ep err_malloc (rw (read_gs_section_group, fresh, a, m) refl)
            | inr (block, m) ↦
                elim (Bool-cases (ltb ep.f_loc_shdr.g_count (psh.gh_size / psh.gh_entsize))) [
                  | inl b ↦
                      refused count ep err_group_error
                        (rw (read_gs_section_group, fresh, a, m, divides, b) refl)
                  | inr b ↦ elim (Bool-cases (psh.gh_entsize == 4)) [
                    | inr c ↦
                        refused count ep err_bad_type_size
                          (rw (read_gs_section_group, fresh, a, m, divides, b, c) refl)
                    | inl c ↦
                        let by_four : psh.gh_size / psh.gh_entsize ≡ count =
                          ap (λ n. psh.gh_size / n) (is_four c) in
                        elim (Result-cases (
                          dwarf_object_read_random ep.f_fd psh.gh_offset psh.gh_size
                            ep.f_filesize)) [
                              | inl r ↦ (
                                (ep, no_entry),
                                rw (read_gs_section_group, fresh, a, m, divides, b, c, r) refl,
                                λ q. absurd (no_entry-neq-ok q),
                              )
                              | inr (inl (code, r)) ↦
                                  refused count ep code
                                    (rw (read_gs_section_group, fresh, a, m, divides, b, c, r) refl)
                              | inr (inr (out, r)) ↦
                                  let (s, n) =
                                    dwarf_object_read_random-slice ep.f_fd bytes
                                      (subst (λ d. IsFile d bytes) (sym is_fd) file) psh.gh_offset
                                      psh.gh_size ep.f_filesize out r in
                                  let whole : psh.gh_size ≤ length bytes = omega (
                                    arith,
                                    ap length s,
                                    n,
                                    length-slice bytes psh.gh_offset psh.gh_size,
                                  ) in
                                  let stored =
                                    store_all-whole block out
                                      (n ∙ sym (blocks psh.gh_size block m)) in
                                  let steps : read_gs_section_group host malloc ep secnum psh
                                      ≡ group_in_area host malloc ep secnum
                                          (psh.gh_size / psh.gh_entsize) out =
                                    rw
                                      (read_gs_section_group, fresh, a, m, divides, b, c, r, stored)
                                      refl in
                                  subst (ReadsGroup count)
                                    (sym (
                                      steps
                                      ∙ ap (λ k. group_in_area host malloc ep secnum k out)
                                          by_four))
                                    (group_in_area-ReadsGroup count out (at_least_one a)
                                      (omega (arith, n)) (omega (arith, whole, file.end_signed)))
                            ]
                  ]
                ]
          ]
        ]

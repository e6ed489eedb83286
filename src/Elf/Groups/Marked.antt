-- ===== src/Elf/Groups/Marked.antt =====
-- The marks that a section group of src/dwarf_load_elf_headers.c leaves on the sections.
use readelfobj_code.Base.{
  ℕ, zero, suc, ◌*◌, ◌≤◌, ◌<◌, ◌≡◌, ◌≢◌, refl, sym, ap, ◌∙◌, arith, inl, inr, true, ◌&&◌, Option,
  none, some, List, [], ◌∷◌, length, length-drop, take, drop, get_elem?, get_elem?-set_self,
  get_elem?-set_ne, get_elem?-inside, All-map, All-map2, set, length-set, All, leb, ◌==◌,
  if◌then◌else◌, Bool-cases, Option-cases,
}
use mathlib.Core.Path.{subst}
use readelfobj_code.Bytes.{Host, plain, swapping, asnar}
use readelfobj_code.Codes.{
  ok, err, no_entry, err_group_error, err-neq-ok, no_entry-neq-ok, ok-injective,
}
use readelfobj_code.Elf.{GenericShdr}
use readelfobj_code.Elf.Flags.{smaller_of}
use readelfobj_code.Elf.Groups.{Marks, add_member, member_of, group_loop}

-- The number of the group that a section is in, 0 for none.
abbrev pub number_in : Option GenericShdr → ℕ
number_in none = 0
number_in (some s) = s.gh_section_group_number

abbrev pub group_at : List GenericShdr → ℕ → ℕ
group_at shdrs i = number_in (get_elem? shdrs i)

abbrev pub Distinct : List ℕ → Type 0
Distinct [] = Unit {0}
Distinct (m ∷ ms) = All (λ k. m ≢ k) ms × Distinct ms

-- What a group with these members does to the sections: the members are different sections behind
-- section zero, each was in no group and is in this one, and every other section is where it was.
pub record IsGrouped (g_count number : ℕ) (before after : List GenericShdr) (members : List ℕ)
    : Type 0 where
  pub in_range : All (λ m. (1 ≤ m) × (m < g_count)) members
  pub distinct : Distinct members
  pub was_free : All (λ m. group_at before m ≡ 0) members
  pub marked : All (λ m. group_at after m ≡ number) members
  pub others : (i : ℕ) → All (λ m. m ≢ i) members → group_at after i ≡ group_at before i

get_or_zero : Option ℕ → ℕ
get_or_zero none = 0
get_or_zero (some n) = n

-- The tests on the smaller of two readings.
picked-range :
    (a b g_count lesser : ℕ)
    → a ≤ b
    → (if a == 0 then none else if leb g_count a && leb g_count b then none else some a)
      ≡ some lesser
    → (1 ≤ lesser) × (lesser < g_count)
unfolding get_or_zero
picked-range a b g_count lesser few h = elim (Bool-cases (a == 0)) [
  | inl z ↦ let nothing : none ≡ some lesser = rw z at h in cc
  | inr z ↦ elim (Bool-cases (leb g_count a && leb g_count b)) [
    | inl k ↦ let nothing : none ≡ some lesser = rw (z, k) at h in cc
    | inr k ↦
        let same : some a ≡ some lesser = rw (z, k) at h in
        let is_a : a ≡ lesser = ap (get_or_zero) same in
        let below : a < g_count = ground arith in
        (ground arith, subst (λ n. n < g_count) is_a below)
  ]
]

-- An index that is taken is a section behind section zero.
member_of-range :
    (host : Host) (g_count : ℕ) (dblock : List ℕ) (lesser : ℕ)
    → member_of host g_count dblock ≡ some lesser
    → (1 ≤ lesser) × (lesser < g_count)
unfolding member_of smaller_of
member_of-range host g_count dblock lesser h =
    let a = asnar host plain dblock in
    let b = asnar host swapping dblock in
    elim (Bool-cases (leb a b)) [
      | inl l ↦ picked-range a b g_count lesser (ground arith) (rw l at h)
      | inr l ↦ picked-range b b g_count lesser (omega arith) (rw l at h)
    ]

module _ (g_count number : ℕ) (some_number : number ≢ 0) where
  -- One more member in front.
  IsGrouped-cons :
      (shdrs after : List GenericShdr) (lesser : ℕ) (targ : GenericShdr) (members : List ℕ)
      → (1 ≤ lesser) × (lesser < g_count)
      → get_elem? shdrs lesser ≡ some targ
      → targ.gh_section_group_number ≡ 0
      → IsGrouped g_count number
          (set shdrs lesser (record targ { gh_section_group_number = number }))
          after
          members
      → IsGrouped g_count number shdrs after (lesser ∷ members)
  IsGrouped-cons shdrs after lesser targ members range found free g =
      let marked_one = record targ { gh_section_group_number = number } in
      let self : group_at (set shdrs lesser marked_one) lesser ≡ number =
        ap number_in (get_elem?-set_self shdrs lesser marked_one found) in
      let ne =
        λ (i : ℕ) (h : lesser ≢ i). ap number_in (get_elem?-set_ne shdrs lesser i marked_one h) in
      let apart : All (λ m. lesser ≢ m) members =
        All-map
          (λ m z e. some_number (sym self ∙ ap (group_at (set shdrs lesser marked_one)) e ∙ z))
          members g.was_free in
      record {
        in_range = (range, g.in_range);
        distinct = (apart, g.distinct);
        was_free = (
          ap number_in found ∙ free,
          All-map2 (λ m z a. sym (ne m a) ∙ z) members g.was_free apart,
        );
        marked = (g.others lesser (All-map (λ m h e. h (sym e)) members apart) ∙ self, g.marked);
        others = λ i h. g.others i h.1 ∙ ne i h.0;
      }

  IsGrouped-nil : (shdrs : List GenericShdr) → IsGrouped g_count number shdrs shdrs []
  IsGrouped-nil shdrs = record {
    in_range = tt;
    distinct = tt;
    was_free = tt;
    marked = tt;
    others = λ i h. refl;
  }

  -- What the loop answers: on success a group with as many members as there were rounds.
  abbrev pub GroupAnswer : ℕ → List GenericShdr → Marks → Type 0
  GroupAnswer rounds before marks =
      (length marks.0 ≡ length before)
      × ((members : List ℕ)
          → marks.1 ≡ ok members
          → IsGrouped g_count number before marks.0 members × (length members ≡ rounds))

  add_member-GroupAnswer :
      (shdrs : List GenericShdr) (lesser rounds : ℕ) (targ : GenericShdr)
      → (1 ≤ lesser) × (lesser < g_count)
      → get_elem? shdrs lesser ≡ some targ
      → targ.gh_section_group_number ≡ 0
      → (marks : Marks)
      → GroupAnswer rounds
          (set shdrs lesser (record targ { gh_section_group_number = number }))
          marks
      → GroupAnswer (suc rounds) shdrs (add_member lesser marks)
  add_member-GroupAnswer shdrs lesser rounds targ range found free (after, no_entry) (l, f) =
      (l ∙ length-set shdrs lesser _, λ members q. absurd (no_entry-neq-ok q))
  add_member-GroupAnswer shdrs lesser rounds targ range found free (after, err code) (l, f) =
      (l ∙ length-set shdrs lesser _, λ members q. absurd (err-neq-ok q))
  add_member-GroupAnswer shdrs lesser rounds targ range found free (after, ok ms) (l, f) =
      let (g, n) = f ms refl in
      (
        l ∙ length-set shdrs lesser _,
        λ members q.
            subst (λ k. IsGrouped g_count number shdrs after k × (length k ≡ suc rounds))
              (ok-injective q)
              (IsGrouped-cons shdrs after lesser targ ms range found free g, ap suc n),
      )

  -- The loop never leaves its blocks nor the sections.
  pub group_loop-GroupAnswer :
      (host : Host) (dp slots : List ℕ) (rounds : ℕ) (shdrs : List GenericShdr)
      → 4 * rounds ≤ length dp
      → 8 * rounds ≤ length slots
      → g_count ≤ length shdrs
      → (marks : Marks) × (group_loop host g_count number dp slots rounds shdrs ≡ some marks)
        × GroupAnswer rounds shdrs marks
  unfolding group_loop
  group_loop-GroupAnswer host dp slots zero shdrs h room k = (
    (shdrs, ok []),
    refl,
    (
      refl,
      λ members q.
          subst (λ m. IsGrouped g_count number shdrs shdrs m × (length m ≡ 0)) (ok-injective q)
            (IsGrouped-nil shdrs, refl),
    ),
  )
  group_loop-GroupAnswer host dp slots (suc rounds) shdrs h room k =
      let inside : leb 4 (length dp) ≡ true = ground arith in
      let slot : leb 8 (length slots) ≡ true = ground arith in
      elim (Option-cases (member_of host g_count (take 4 dp))) [
        | inl m ↦ (
          (shdrs, err err_group_error),
          rw (inside, m) refl,
          (refl, λ members q. absurd (err-neq-ok q)),
        )
        | inr (lesser, m) ↦
            let range = member_of-range host g_count (take 4 dp) lesser m in
            let (targ, found) = get_elem?-inside shdrs lesser (omega (arith, range.1)) in
            elim (Bool-cases (targ.gh_section_group_number == 0)) [
              | inr z ↦ (
                (shdrs, err err_group_error),
                rw (inside, m, slot, found, z) refl,
                (refl, λ members q. absurd (err-neq-ok q)),
              )
              | inl z ↦
                  let marked_one = record targ { gh_section_group_number = number } in
                  let (marks, rest, answer) =
                    group_loop-GroupAnswer host (drop 4 dp) (drop 8 slots) rounds
                      (set shdrs lesser marked_one) (omega (arith, length-drop 4 dp))
                      (omega (arith, length-drop 8 slots))
                      (omega (arith, length-set shdrs lesser marked_one)) in
                  (
                    add_member lesser marks,
                    rw (inside, m, slot, found, z, rest) refl,
                    add_member-GroupAnswer shdrs lesser rounds targ range found (ground arith) marks
                        answer,
                  )
            ]
      ]

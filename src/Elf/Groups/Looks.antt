-- ===== src/Elf/Groups/Looks.antt =====
-- One round of the second loop of `elf_setup_all_section_groups` of src/dwarf_load_elf_headers.c.
use readelfobj_code.Base.{
  ℕ, ◌+◌, ◌≡◌, refl, sym, ap, ◌∙◌, arith, inl, inr, Bool, true, false, ◌&&◌, ◌||◌, not, Option,
  none, some, List, get_elem?, get_elem?-set_self, get_elem?-set_ne, set, ◌==◌, if◌then◌else◌,
  Bool-cases,
}
use mathlib.Core.Path.{subst}
use readelfobj_code.Base.Text.{codes}
use readelfobj_code.Base.Words.{u64}
use readelfobj_code.Codes.{Result, ok, err, err_group_error, err-neq-ok}
use readelfobj_code.Elf.{GenericShdr, ElfFiledata}
use readelfobj_code.Elf.Flags.{
  is_empty_section, elf_sht_groupsec, string_endswith, dwarf_load_elf_section_is_dwarf,
}
use readelfobj_code.Elf.Groups.{mark_dwarf}
use readelfobj_code.Elf.Groups.Answered.{look}

-- A section that is not empty and no group, whose name is one of a section with DWARF.
abbrev pub holds_dwarf : ℕ → List ℕ → Bool
holds_dwarf type name =
    not (is_empty_section type || elf_sht_groupsec type name)
    && (string_endswith name (codes ".dwo") || dwarf_load_elf_section_is_dwarf name)

-- What a section looks like behind the second loop when the loop comes by, and when it does not.
abbrev pub looked : Bool → Option (ℕ × List ℕ × Bool) → Option (ℕ × List ℕ × Bool)
looked by none = none
looked by (some (type, name, is_dwarf)) = some (type, name, is_dwarf || by && holds_dwarf type name)

pub looked_not : (o : Option (ℕ × List ℕ × Bool)) → looked false o ≡ o
looked_not none = refl
looked_not (some (type, name, true)) = refl
looked_not (some (type, name, false)) = refl

pub or_and : (h b : Bool) → (h || b && h) ≡ h
or_and true b = refl
or_and false true = refl
or_and false false = refl

pub looked_twice :
    (b c : Bool) (o : Option (ℕ × List ℕ × Bool)) → looked b (looked c o) ≡ looked (c || b) o
looked_twice b c none = refl
looked_twice b c (some (type, name, true)) = refl
looked_twice b true (some (type, name, false)) =
    ap (λ d. some (type, name, d)) (or_and (holds_dwarf type name) b)
looked_twice b false (some (type, name, false)) = refl

-- One round looks at one section.
abbrev pub Looks : ℕ → List GenericShdr → List GenericShdr → Type 0
Looks i before after =
    (j : ℕ) → look (get_elem? after j) ≡ looked (i == j) (look (get_elem? before j))

pub kept-Looks :
    (shdrs : List GenericShdr) (i : ℕ) (psh : GenericShdr)
    → get_elem? shdrs i ≡ some psh
    → look (some psh) ≡ looked true (look (some psh))
    → Looks i shdrs shdrs
kept-Looks shdrs i psh found e j = elim (Bool-cases (i == j)) [
  | inl z ↦
      let here : i ≡ j = ground arith in
      let at_i : look (get_elem? shdrs i) ≡ looked true (look (get_elem? shdrs i)) =
        ap look found ∙ e ∙ sym (ap (λ o. looked true (look o)) found) in
      rw z
        (subst (λ k. look (get_elem? shdrs k) ≡ looked true (look (get_elem? shdrs k))) here at_i)
  | inr z ↦ rw z (sym (looked_not (look (get_elem? shdrs j))))
]

pub set-Looks :
    (shdrs : List GenericShdr) (i : ℕ) (v psh : GenericShdr)
    → get_elem? shdrs i ≡ some psh
    → look (some v) ≡ looked true (look (some psh))
    → Looks i shdrs (set shdrs i v)
set-Looks shdrs i v psh found e j = elim (Bool-cases (i == j)) [
  | inl z ↦
      let here : i ≡ j = ground arith in
      let at_i : look (get_elem? (set shdrs i v) i) ≡ looked true (look (get_elem? shdrs i)) =
        ap look (get_elem?-set_self shdrs i v found)
        ∙ e
        ∙ sym (ap (λ o. looked true (look o)) found) in
      rw z (
        subst (λ k. look (get_elem? (set shdrs i v) k) ≡ looked true (look (get_elem? shdrs k)))
          here at_i)
  | inr z ↦ rw z (
      ap look (get_elem?-set_ne shdrs i j v (ground arith))
      ∙ sym (looked_not (look (get_elem? shdrs j))))
]

pub or_true : (b : Bool) → true ≡ (b || true)
or_true true = refl
or_true false = refl

pub or_false : (b : Bool) → b ≡ (b || false)
or_false true = refl
or_false false = refl

-- The look of a section that is marked, and of one that is not.
pub marked_look :
    (type : ℕ) (name : List ℕ) (b : Bool)
    → holds_dwarf type name ≡ true
    → some (type, name, true) ≡ looked true (some (type, name, b))
marked_look type name b h = ap (λ d. some (type, name, d)) (or_true b ∙ ap (λ d. b || d) (sym h))

pub unmarked_look :
    (type : ℕ) (name : List ℕ) (b : Bool)
    → holds_dwarf type name ≡ false
    → some (type, name, b) ≡ looked true (some (type, name, b))
unmarked_look type name b h = ap (λ d. some (type, name, d)) (or_false b ∙ ap (λ d. b || d) (sym h))

-- A step that succeeds has looked at section `i`.
abbrev pub StepLooks : ElfFiledata → ℕ → ElfFiledata × Result (Unit {0}) → Type 0
StepLooks ep i r = r.1 ≡ ok tt → Looks i ep.f_shdr r.0.f_shdr

pub mark_dwarf-StepLooks :
    (ep : ElfFiledata) (i : ℕ) (psh : GenericShdr)
    → get_elem? ep.f_shdr i ≡ some psh
    → (is_empty_section psh.gh_type || elf_sht_groupsec psh.gh_type psh.gh_namestring) ≡ false
    → StepLooks ep i (mark_dwarf ep i psh)
unfolding mark_dwarf
mark_dwarf-StepLooks ep i psh found z =
    let name = psh.gh_namestring in
    elim (Bool-cases (string_endswith name (codes ".dwo"))) [
      | inl d ↦
          let holds : holds_dwarf psh.gh_type name ≡ true = rw (z, d) refl in
          elim (Bool-cases (psh.gh_section_group_number == 0)) [
            | inl n ↦
                let steps : mark_dwarf ep i psh ≡ (
                  record ep {
                    f_shdr =
                        set ep.f_shdr i
                          (record psh { gh_is_dwarf = true; gh_section_group_number = 2 });
                    f_dwo_group_section_count = u64 (ep.f_dwo_group_section_count + 1);
                  },
                  ok tt,
                ) =
                  rw (d, n) refl in
                subst (StepLooks ep i) (sym steps) (λ q.
                  set-Looks ep.f_shdr i
                    (record psh { gh_is_dwarf = true; gh_section_group_number = 2 }) psh found
                    (marked_look psh.gh_type name psh.gh_is_dwarf holds))
            | inr n ↦
                let steps : mark_dwarf ep i psh ≡ (ep, err err_group_error) = rw (d, n) refl in
                subst (StepLooks ep i) (sym steps) (λ q. absurd (err-neq-ok q))
          ]
      | inr d ↦ elim (Bool-cases (dwarf_load_elf_section_is_dwarf name)) [
        | inl n ↦
            let holds : holds_dwarf psh.gh_type name ≡ true = rw (z, d, n) refl in
            let marked = record psh {
              gh_is_dwarf = true;
              gh_section_group_number =
                  if psh.gh_section_group_number == 0 then 1 else psh.gh_section_group_number;
            } in
            let steps : mark_dwarf ep i psh
                ≡ (record ep { f_shdr = set ep.f_shdr i marked }, ok tt) =
              rw (d, n) refl in
            subst (StepLooks ep i) (sym steps) (λ q.
              set-Looks ep.f_shdr i marked psh found
                (marked_look psh.gh_type name psh.gh_is_dwarf holds))
        | inr n ↦
            let holds : holds_dwarf psh.gh_type name ≡ false = rw (z, d, n) refl in
            let steps : mark_dwarf ep i psh ≡ (ep, ok tt) = rw (d, n) refl in
            subst (StepLooks ep i) (sym steps) (λ q.
              kept-Looks ep.f_shdr i psh found
                (unmarked_look psh.gh_type name psh.gh_is_dwarf holds))
      ]
    ]

-- ===== src/Elf/Groups/Dwarf.antt =====
-- Which sections `elf_setup_all_section_groups` of src/dwarf_load_elf_headers.c says hold DWARF.
use readelfobj_code.Base.{
  ℕ, zero, suc, ◌+◌, ◌-◌, ◌≡◌, refl, sym, ap, ◌∙◌, arith, inl, inr, Bool, false, ◌&&◌, ◌||◌, Option,
  none, some, List, get_elem?, ltb, leb, ◌==◌, Bool-cases,
}
use mathlib.Core.Path.{subst}
use readelfobj_code.Bytes.{Host}
use readelfobj_code.Codes.{Result, ok, err, no_entry, err-neq-ok, no_entry-neq-ok}
use readelfobj_code.Elf.{ElfFiledata}
use readelfobj_code.Elf.Flags.{is_empty_section, elf_sht_groupsec}
use readelfobj_code.Elf.Groups.{groups_loop, mark_dwarf, dwarf_loop, elf_setup_all_section_groups}
use readelfobj_code.Elf.Groups.Answered.{
  Answered, Answered-bind, Answered-then, look, Same, Keeps, Answered-result, groups_loop-Same,
}
use readelfobj_code.Elf.Groups.Looks.{
  holds_dwarf, looked, looked_not, looked_twice, Looks, kept-Looks, unmarked_look, StepLooks,
  mark_dwarf-StepLooks,
}

-- Whether index `j` is one of the `rounds` from `i` on.
abbrev within : ℕ → ℕ → ℕ → Bool
within i rounds j = leb i j && ltb j (i + rounds)

abbrev MarksDwarf : ℕ → ℕ → ElfFiledata → ElfFiledata × Result (Unit {0}) → Type 0
MarksDwarf rounds i ep r =
    r.1 ≡ ok tt
    → (j : ℕ)
    → look (get_elem? r.0.f_shdr j) ≡ looked (within i rounds j) (look (get_elem? ep.f_shdr j))

within_step : (i rounds j : ℕ) → ((i == j) || within (i + 1) rounds j) ≡ within i (suc rounds) j
within_step i rounds j = ground arith

-- A round in front of the others.
MarksDwarf-after :
    (rounds i : ℕ) (ep ep' : ElfFiledata)
    → Looks i ep.f_shdr ep'.f_shdr
    → (m : Option (ElfFiledata × Result (Unit {0}))) → Answered (MarksDwarf rounds (i + 1) ep') m
    → Answered (MarksDwarf (suc rounds) i ep) m
MarksDwarf-after rounds i ep ep' h none k = tt
MarksDwarf-after rounds i ep ep' h (some r) k = λ q j.
    k q j
    ∙ ap (looked (within (i + 1) rounds j)) (h j)
    ∙ looked_twice (within (i + 1) rounds j) (i == j) (look (get_elem? ep.f_shdr j))
    ∙ ap (λ b. looked b (look (get_elem? ep.f_shdr j))) (within_step i rounds j)

go_on :
    (rounds i : ℕ) (ep : ElfFiledata)
    → ((ep' : ElfFiledata)
        → Answered (MarksDwarf rounds (i + 1) ep') (dwarf_loop rounds (i + 1) ep'))
    → (r : ElfFiledata × Result (Unit {0})) → StepLooks ep i r
    → Answered (MarksDwarf (suc rounds) i ep) (elim r.1 [
      | ok done ↦ dwarf_loop rounds (i + 1) r.0
      | err code ↦ some (r.0, err code)
      | no_entry ↦ some (r.0, no_entry)
    ])
go_on rounds i ep rest (ep', no_entry) h = λ q. absurd (no_entry-neq-ok q)
go_on rounds i ep rest (ep', err code) h = λ q. absurd (err-neq-ok q)
go_on rounds i ep rest (ep', ok done) h =
    MarksDwarf-after rounds i ep ep' (h refl) (dwarf_loop rounds (i + 1) ep') (rest ep')

dwarf_loop-MarksDwarf :
    (rounds i : ℕ) (ep : ElfFiledata) → Answered (MarksDwarf rounds i ep) (dwarf_loop rounds i ep)
unfolding dwarf_loop
dwarf_loop-MarksDwarf zero i ep = λ q j.
    let nowhere : within i 0 j ≡ false = ground arith in
    rw nowhere (sym (looked_not (look (get_elem? ep.f_shdr j))))
dwarf_loop-MarksDwarf (suc rounds) i ep =
    let goal = MarksDwarf (suc rounds) i ep in
    Answered-then goal _ (get_elem? ep.f_shdr i) (λ psh found.
      elim (Bool-cases
        (is_empty_section psh.gh_type || elf_sht_groupsec psh.gh_type psh.gh_namestring)) [
          | inl z ↦
              let holds : holds_dwarf psh.gh_type psh.gh_namestring ≡ false = rw z refl in
              rw z (
                MarksDwarf-after rounds i ep ep
                  (kept-Looks ep.f_shdr i psh found
                    (unmarked_look psh.gh_type psh.gh_namestring psh.gh_is_dwarf holds))
                  (dwarf_loop rounds (i + 1) ep) (dwarf_loop-MarksDwarf rounds (i + 1) ep))
          | inr z ↦ rw z (
              go_on rounds i ep (dwarf_loop-MarksDwarf rounds (i + 1)) (mark_dwarf ep i psh)
                (mark_dwarf-StepLooks ep i psh found z))
        ])

-- The sections before, and the state and the answer behind both loops.
abbrev Sets : ElfFiledata → ElfFiledata × Result (Unit {0}) → Type 0
Sets ep r =
    r.1 ≡ ok tt
    → (j : ℕ)
    → look (get_elem? r.0.f_shdr j)
      ≡ looked (ltb j (ep.f_loc_shdr.g_count - 1)) (look (get_elem? ep.f_shdr j))

Sets-after :
    (ep ep' : ElfFiledata)
    → Same ep.f_shdr ep'.f_shdr
    → (m : Option (ElfFiledata × Result (Unit {0})))
    → Answered (MarksDwarf (ep.f_loc_shdr.g_count - 1) 0 ep') m
    → Answered (Sets ep) m
Sets-after ep ep' h none k = tt
Sets-after ep ep' h (some r) k = λ q j.
    let n = ep.f_loc_shdr.g_count - 1 in
    let below : within 0 n j ≡ ltb j n = ground arith in
    k q j
    ∙ ap (looked (within 0 n j)) (h j)
    ∙ ap (λ b. looked b (look (get_elem? ep.f_shdr j))) below

elf_setup-Sets :
    (host : Host) (malloc : ℕ → Option (List ℕ)) (ep : ElfFiledata)
    → Answered (Sets ep) (elf_setup_all_section_groups host malloc ep)
unfolding elf_setup_all_section_groups
elf_setup-Sets host malloc ep =
    let rounds = ep.f_loc_shdr.g_count - 1 in
    let goal = Sets ep in
    Answered-bind goal _ (Keeps ep) (groups_loop host malloc rounds 0 ep)
      (groups_loop-Same host malloc rounds 0 ep)
      (λ (ep', res) h.
        Answered-result goal _ _ _ res (λ q. absurd (no_entry-neq-ok q))
          (λ code q. absurd (err-neq-ok q))
          (λ done.
            Sets-after ep ep' h (dwarf_loop rounds 0 ep') (dwarf_loop-MarksDwarf rounds 0 ep')))

-- When `elf_setup_all_section_groups` is `DW_DLV_OK`, every section has the type and the name that it
-- had, and holds DWARF exactly when it did before, or when it stands before the last of the counted sections, is
-- neither empty nor a group, and has a name that ends with ".dwo" or is one of a section with DWARF.
pub elf_setup_all_section_groups_lem :
    (host : Host) (malloc : ℕ → Option (List ℕ)) (ep ep' : ElfFiledata)
    → elf_setup_all_section_groups host malloc ep ≡ some (ep', ok tt)
    → (j : ℕ)
    → look (get_elem? ep'.f_shdr j)
      ≡ looked (ltb j (ep.f_loc_shdr.g_count - 1)) (look (get_elem? ep.f_shdr j))
elf_setup_all_section_groups_lem host malloc ep ep' e =
    subst (Answered (Sets ep)) e (elf_setup-Sets host malloc ep) refl

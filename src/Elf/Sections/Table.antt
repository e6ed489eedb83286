-- ===== src/Elf/Sections/Table.antt =====
-- The table of section headers of src/dwarf_load_elf_headers.c and the entries for its sections.
use readelfobj_code.Base.{
  ℕ, zero, suc, ◌+◌, ◌*◌, ◌≤◌, ◌<◌, ◌≡◌, refl, sym, ap, ◌∙◌, arith, inl, inr, true, false, some,
  List, [], ◌∷◌, ◌++◌, length, length-drop, take, drop, drop-drop, get_elem?, leb, if◌then◌else◌,
  Bool-cases,
}
use mathlib.Core.List.{append_assoc, append-nil}
use readelfobj_code.Base.Words.{u64}
use readelfobj_code.Elf.{GenericShdr, ElfFiledata, InUse, dwarf_insert_in_use_entry}
use readelfobj_code.Elf.Flags.{is_empty_section}
use readelfobj_code.Elf.Sections.{insert_target, header_of, shdr_loop}

-- The entries for the bytes of all of these sections.
abbrev pub insert_all : ElfFiledata → List GenericShdr → ElfFiledata
insert_all ep [] = ep
insert_all ep (g ∷ gs) = insert_all (insert_target ep g) gs

pub insert_target-fdoffset :
    (ep : ElfFiledata) (g : GenericShdr) → (insert_target ep g).f_fdoffset ≡ ep.f_fdoffset
unfolding dwarf_insert_in_use_entry
insert_target-fdoffset ep g = elim (Bool-cases (is_empty_section g.gh_type)) [
  | inl z ↦ rw z refl
  | inr z ↦ rw z refl
]

pub insert_all-fdoffset :
    (gs : List GenericShdr) (ep : ElfFiledata) → (insert_all ep gs).f_fdoffset ≡ ep.f_fdoffset
insert_all-fdoffset [] ep = refl
insert_all-fdoffset (g ∷ gs) ep =
    insert_all-fdoffset gs (insert_target ep g) ∙ insert_target-fdoffset ep g

-- The entry for a section's bytes.
abbrev pub entry_of : GenericShdr → InUse
entry_of g = record {
  u_offset = g.gh_offset;
  u_align = g.gh_addralign;
  u_length = g.gh_size;
  u_lastbyte = u64 (g.gh_offset + g.gh_size);
}

-- The entries for the sections that have bytes in the file.
abbrev pub targets : List GenericShdr → List InUse
targets [] = []
targets (g ∷ gs) = if is_empty_section g.gh_type then targets gs else entry_of g ∷ targets gs

pub insert_target_full :
    (ep : ElfFiledata) (g : GenericShdr)
    → is_empty_section g.gh_type ≡ false
    → (insert_target ep g).f_in_use ≡ ep.f_in_use ++ entry_of g ∷ []
unfolding dwarf_insert_in_use_entry
insert_target_full ep g z = rw z refl

pub insert_all-in_use :
    (gs : List GenericShdr) (ep : ElfFiledata)
    → (insert_all ep gs).f_in_use ≡ ep.f_in_use ++ targets gs
insert_all-in_use [] ep = sym (append-nil ep.f_in_use)
insert_all-in_use (g ∷ gs) ep =
    let ih = insert_all-in_use gs (insert_target ep g) in
    elim (Bool-cases (is_empty_section g.gh_type)) [
      | inl z ↦ ih ∙ rw z refl
      | inr z ↦
          ih
          ∙ ap (λ l. l ++ targets gs) (insert_target_full ep g z)
          ∙ rw z (append_assoc ep.f_in_use (entry_of g ∷ []) (targets gs))
    ]

module _ (copysection : GenericShdr → List ℕ → GenericShdr) (size entsize : ℕ) where
  -- The headers that stand one behind the other in `block` from position `p` on.
  abbrev pub headers : ℕ → List ℕ → ℕ → ℕ → ℕ → List GenericShdr
  headers fdoffset block p i zero = []
  headers fdoffset block p i (suc rounds) =
      header_of copysection size fdoffset entsize i (take size (drop p block))
      ∷ headers fdoffset block (p + size) (i + 1) rounds

  pub length-headers :
      (fdoffset : ℕ) (block : List ℕ) (p i rounds : ℕ)
      → length (headers fdoffset block p i rounds) ≡ rounds
  length-headers fdoffset block p i zero = refl
  length-headers fdoffset block p i (suc rounds) =
      ap suc (length-headers fdoffset block (p + size) (i + 1) rounds)

  pub get_elem?-headers :
      (fdoffset : ℕ) (block : List ℕ) (p i rounds j : ℕ)
      → j < rounds
      → get_elem? (headers fdoffset block p i rounds) j
        ≡ some (
            header_of copysection size fdoffset entsize
              (i + j)
              (take size (drop (p + size * j) block)))
  get_elem?-headers fdoffset block p i zero j h = absurd (omega arith)
  get_elem?-headers fdoffset block p i (suc rounds) zero h =
      ap (λ k. some (header_of copysection size fdoffset entsize k (take size (drop p block))))
        (omega arith)
      ∙ ap
          (λ q.
            some (header_of copysection size fdoffset entsize (i + 0) (take size (drop q block))))
          (omega arith)
  get_elem?-headers fdoffset block p i (suc rounds) (suc j) h =
      get_elem?-headers fdoffset block (p + size) (i + 1) rounds j (omega arith)
      ∙ ap
          (λ k. some (
            header_of copysection size fdoffset entsize k
              (take size (drop (p + size + size * j) block))))
          (omega arith)
      ∙ ap
          (λ q.
            some
              (header_of copysection size fdoffset entsize (i + suc j) (take size (drop q block))))
          (omega arith)

  pub shdr_loop_lem :
      (rounds : ℕ) (ep : ElfFiledata) (block : List ℕ) (p i : ℕ)
      → p + size * rounds ≤ length block
      → shdr_loop copysection size entsize ep rounds (drop p block) i rounds
        ≡ some (
          insert_all ep (headers ep.f_fdoffset block p i rounds),
          headers ep.f_fdoffset block p i rounds,
        )
  unfolding shdr_loop
  shdr_loop_lem zero ep block p i h = refl
  shdr_loop_lem (suc rounds) ep block p i h =
      let inside : leb size (length (drop p block)) ≡ true = ground (arith, length-drop p block) in
      let g = header_of copysection size ep.f_fdoffset entsize i (take size (drop p block)) in
      let ih = shdr_loop_lem rounds (insert_target ep g) block (p + size) (i + 1) (omega arith) in
      rw (inside, drop-drop size p block, ih, insert_target-fdoffset ep g) refl

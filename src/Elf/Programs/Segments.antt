-- ===== src/Elf/Programs/Segments.antt =====
-- The table of program headers of src/dwarf_load_elf_headers.c and the entries for its segments.
use readelfobj_code.Base.{
  ℕ, zero, suc, ◌+◌, ◌*◌, ◌≤◌, ◌<◌, ◌≡◌, refl, sym, ap, ◌∙◌, arith, inl, inr, true, ◌||◌, not, some,
  List, [], ◌∷◌, ◌++◌, length, length-drop, take, drop, drop-drop, get_elem?, leb, ◌==◌,
  if◌then◌else◌, Bool-cases,
}
use mathlib.Core.List.{append_assoc, append-nil}
use readelfobj_code.Base.Words.{u64}
use readelfobj_code.Elf.{GenericPhdr, ElfFiledata, InUse, dwarf_insert_in_use_entry}
use readelfobj_code.Elf.Programs.{Returned, insert_segment, phdr_loop}
use readelfobj_code.ObjectRead.Ranges.{slice}

-- The entries for the segments that have a place or a size.
abbrev pub segments : List GenericPhdr → List InUse
segments [] = []
segments (g ∷ gs) =
    if not (g.gp_offset == 0) || not (g.gp_filesz == 0)
    then record {
      u_offset = g.gp_offset;
      u_align = g.gp_align;
      u_length = g.gp_filesz;
      u_lastbyte = u64 (g.gp_offset + g.gp_filesz);
    }
      ∷ segments gs
    else segments gs

abbrev pub insert_all : ElfFiledata → List GenericPhdr → ElfFiledata
insert_all ep [] = ep
insert_all ep (g ∷ gs) = insert_all (insert_segment ep g) gs

pub insert_all-in_use :
    (gs : List GenericPhdr) (ep : ElfFiledata)
    → (insert_all ep gs).f_in_use ≡ ep.f_in_use ++ segments gs
unfolding dwarf_insert_in_use_entry
insert_all-in_use [] ep = sym (append-nil ep.f_in_use)
insert_all-in_use (g ∷ gs) ep =
    let ih = insert_all-in_use gs (insert_segment ep g) in
    elim (Bool-cases (not (g.gp_offset == 0) || not (g.gp_filesz == 0))) [
      | inr z ↦ ih ∙ rw z refl
      | inl z ↦ ih ∙ rw z (append_assoc ep.f_in_use (_ ∷ []) (segments gs))
    ]

module _ (words_of_phdr : List ℕ → GenericPhdr) (size : ℕ) where
  abbrev pub headers : List ℕ → ℕ → ℕ → List GenericPhdr
  headers block p zero = []
  headers block p (suc rounds) =
      words_of_phdr (take size (drop p block)) ∷ headers block (p + size) rounds

  pub length-headers : (block : List ℕ) (p rounds : ℕ) → length (headers block p rounds) ≡ rounds
  length-headers block p zero = refl
  length-headers block p (suc rounds) = ap suc (length-headers block (p + size) rounds)

  pub get_elem?-headers :
      (block : List ℕ) (p rounds j : ℕ)
      → j < rounds
      → get_elem? (headers block p rounds) j
        ≡ some (words_of_phdr (take size (drop (p + size * j) block)))
  get_elem?-headers block p zero j h = absurd (omega arith)
  get_elem?-headers block p (suc rounds) zero h =
      ap (λ q. some (words_of_phdr (take size (drop q block)))) (omega arith)
  get_elem?-headers block p (suc rounds) (suc j) h =
      get_elem?-headers block (p + size) rounds j (omega arith)
      ∙ ap (λ q. some (words_of_phdr (take size (drop q block)))) (omega arith)

  pub phdr_loop_lem :
      (no_memory : Returned) (rounds : ℕ) (ep : ElfFiledata) (block : List ℕ) (p : ℕ)
      → p + size * rounds ≤ length block
      → phdr_loop words_of_phdr size no_memory ep rounds (drop p block) rounds
        ≡ some (insert_all ep (headers block p rounds), headers block p rounds)
  unfolding phdr_loop
  phdr_loop_lem no_memory zero ep block p h = refl
  phdr_loop_lem no_memory (suc rounds) ep block p h =
      let inside : leb size (length (drop p block)) ≡ true = ground (arith, length-drop p block) in
      let g = words_of_phdr (take size (drop p block)) in
      let ih =
        phdr_loop_lem no_memory rounds (insert_segment ep g) block (p + size) (omega arith) in
      rw (inside, drop-drop size p block, ih) refl

  -- What is kept of `count` program headers in the file's `bytes` from `offset` on.
  pub record HasSegments (bytes : List ℕ) (offset entsize count : ℕ) (entries : List InUse)
      (after : ElfFiledata) : Type 0 where
    pub has_count : length after.f_phdr ≡ count
    pub counted : after.f_loc_phdr.g_count ≡ count
    pub wide : size ≤ entsize
    pub inside : offset + entsize * count ≤ length bytes
    pub header :
        (i : ℕ)
        → i < count
        → get_elem? after.f_phdr i ≡ some (words_of_phdr (slice bytes (offset + size * i) size))
    pub in_use :
        after.f_in_use
        ≡ entries
          ++ (segments after.f_phdr
              ++ record {
                u_offset = offset;
                u_align = 4;
                u_length = entsize * count;
                u_lastbyte = offset + entsize * count;
              }
                ∷ [])

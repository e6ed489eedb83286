-- ===== src/Elf/Relocations/Kept.antt =====
-- What the sections of src/dwarf_load_elf_headers.c keep of their relocations with addends.
use readelfobj_code.Base.{
  ℕ, ◌≡◌, refl, ap, Option, some, List, get_elem?, set, ◌==◌, if◌then◌else◌, get_elem?-set_self,
}
use readelfobj_code.Codes.{Result, ok, err, no_entry, no_entry-neq-ok, err-neq-ok}
use readelfobj_code.Elf.{GenericRela, GenericShdr, ElfFiledata}
use readelfobj_code.Elf.Relocations.{keep_rels, at_section}
use readelfobj_code.Elf.Relocations.Loaded.{AreRelocations}

-- What a section keeps of its relocations: `is` says what a relocation is, given its bytes.
pub record HasRelocations (is : List ℕ → GenericRela → Type 0) (size : ℕ) (bytes : List ℕ)
    (offset count : ℕ) (after : GenericShdr) : Type 0 where
  pub relocations : List GenericRela
  pub kept : after.gh_rels ≡ some relocations
  pub counted : after.gh_relcount ≡ count
  pub are_relocations : AreRelocations is size bytes offset count relocations

pub keep_rels-HasRelocations :
    (is : List ℕ → GenericRela → Type 0) (size : ℕ) (bytes : List ℕ) (offset count : ℕ)
    (psh : GenericShdr) (answer : Result (ℕ × Option (List GenericRela)))
    → ((stored : ℕ × Option (List GenericRela))
        → answer ≡ ok stored
        → (rels : List GenericRela) × (stored ≡ (count, some rels))
          × AreRelocations is size bytes offset count rels)
    → (keep_rels psh answer).1 ≡ ok tt
    → HasRelocations is size bytes offset count (keep_rels psh answer).0
keep_rels-HasRelocations is size bytes offset count psh no_entry holds q =
    absurd (no_entry-neq-ok q)
keep_rels-HasRelocations is size bytes offset count psh (err code) holds q = absurd (err-neq-ok q)
keep_rels-HasRelocations is size bytes offset count psh (ok stored) holds q =
    let (rels, e, are) = holds stored refl in
    record {
      relocations = rels;
      kept = ap (λ s. s.1) e;
      counted = ap (λ s. s.0) e;
      are_relocations = are;
    }

-- The size of a relocation with an addend of an object with the class of `ep`.
abbrev pub rela_size : ElfFiledata → ℕ
rela_size ep = if ep.f_offsetsize == 32 then 12 else 24

-- No answer leaves a block, and what `DW_DLV_OK` keeps at `secnum`.
abbrev pub KeepsAt : (GenericShdr → Type 0) → ℕ → Option (ElfFiledata × Result (Unit {0})) → Type 0
KeepsAt P secnum answer =
    (r : ElfFiledata × Result (Unit {0})) × (answer ≡ some r)
    × (r.1 ≡ ok tt → (after : GenericShdr) × (get_elem? r.0.f_shdr secnum ≡ some after) × P after)

-- A section handled on its own stands in the table.
pub at_section-KeepsAt :
    (P : GenericShdr → Type 0) (ep : ElfFiledata) (secnum : ℕ) (psh : GenericShdr)
    (f : GenericShdr → Option (GenericShdr × Result (Unit {0})))
    → get_elem? ep.f_shdr secnum ≡ some psh
    → (r : GenericShdr × Result (Unit {0})) → f psh ≡ some r
    → (r.1 ≡ ok tt → P r.0)
    → KeepsAt P secnum (at_section ep secnum f)
at_section-KeepsAt P ep secnum psh f found r e holds = (
  (record ep { f_shdr = set ep.f_shdr secnum r.0 }, r.1),
  rw (found, e) refl,
  λ q. (r.0, get_elem?-set_self ep.f_shdr secnum r.0 found, holds q),
)

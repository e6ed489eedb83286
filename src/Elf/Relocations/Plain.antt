-- ===== src/Elf/Relocations/Plain.antt =====
-- What the sections of src/dwarf_load_elf_headers.c keep of their relocations without addends.
use readelfobj_code.Base.{ℕ, ◌≤◌, ◌≡◌, ◌⊎◌, bit_and, Option, none, some, List, ◌==◌, if◌then◌else◌}
use readelfobj_code.Bytes.{Host}
use readelfobj_code.Codes.{Result, ok}
use readelfobj_code.Elf.{GenericRela, GenericShdr, ElfFiledata}
use readelfobj_code.Elf.Decompress.{Library}
use readelfobj_code.Elf.Decompress.Sizes.{IsLibrary}
use readelfobj_code.Elf.Layout.{IsRel32, IsRel}
use readelfobj_code.Elf.Relocations.Kept.{HasRelocations}
use readelfobj_code.Elf.Relocations.Loaded.{AreRelocations}
use readelfobj_code.ObjectRead.{IsFile}

module _ (host : Host) (lib : Library) (laws : IsLibrary lib) (ep : ElfFiledata) (bytes : List ℕ)
    (file : IsFile ep.f_fd bytes) (psh : GenericShdr) (plain : bit_and psh.gh_flags 0x800 ≡ 0)
    (count : ℕ) (some_rels : 1 ≤ count) where
  -- Without memory nothing is handed up, and no failure either.
  abbrev Load32Cases :
      Option (GenericShdr × Option (Result (ℕ × Option (List GenericRela)))) → Type 0
  Load32Cases answer =
      ((lib.malloc psh.gh_size ≡ none) × (answer ≡ some (psh, none)))
      ⊎ ((r : GenericShdr × Result (ℕ × Option (List GenericRela))) × (answer
            ≡ some (r.0, some r.1))
          × ((stored : ℕ × Option (List GenericRela))
              → r.1 ≡ ok stored
              → (rels : List GenericRela) × (stored ≡ (count, some rels))
                × AreRelocations (IsRel32 host ep.f_copy_word) 8 bytes psh.gh_offset count rels))

-- The size of a relocation without an addend of an object with the class of `ep`.
abbrev pub rel_size : ElfFiledata → ℕ
rel_size ep = if ep.f_offsetsize == 32 then 8 else 16

-- The relocations, or none of them where memory is short and the class is 32.
abbrev pub HasPlain : Host → Library → ElfFiledata → List ℕ → GenericShdr → ℕ → GenericShdr → Type 0
HasPlain host lib ep bytes psh count after =
    HasRelocations (IsRel host lib ep) (rel_size ep) bytes psh.gh_offset count after
    ⊎ ((ep.f_offsetsize ≡ 32)
        × (lib.malloc psh.gh_size ≡ none)
        × (after.gh_rels ≡ none)
        × (after.gh_relcount ≡ 0))

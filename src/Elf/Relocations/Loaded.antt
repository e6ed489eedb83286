-- ===== src/Elf/Relocations/Loaded.antt =====
-- The relocations that src/dwarf_load_elf_headers.c keeps of a section, against the bytes of the file.
use readelfobj_code.Base.{
  ℕ, ◌+◌, ◌*◌, ◌/◌, ◌≤◌, ◌<◌, ◌≡◌, inl, inr, refl, sym, ap, ◌∙◌, arith, not, bit_and, true, false,
  Option, none, some, List, length, get_elem?, leb, ◌==◌, Bool-cases,
}
use mathlib.Core.Path.{subst}
use native.Mathlib.Nat.{mul_comm}
use readelfobj_code.Bytes.{Host}
use readelfobj_code.Codes.{
  Result, ok, err, no_entry, ErrCode, err_malloc, err_file_offset_bad, err_rel_section_size,
  err_rel_count_mismatch, no_entry-neq-ok, err-neq-ok, ok-injective, Result-cases,
}
use readelfobj_code.Elf.{GenericRela, GenericShdr, ElfFiledata}
use readelfobj_code.Elf.Content.{with_content}
use readelfobj_code.Elf.Content.Read.{with_content-ReadCases}
use readelfobj_code.Elf.Decompress.{Library, bytes_at}
use readelfobj_code.Elf.Decompress.Sizes.{IsLibrary}
use readelfobj_code.Elf.Layout.{IsRela32, IsRela64}
use readelfobj_code.Elf.Layout.Decoded.{words_of_rela32-IsRela32, words_of_rela64-IsRela64}
use readelfobj_code.Elf.Records.{
  read_at_offset_lem, HasEntries, record_loop-HasEntries, entries_fit,
}
use readelfobj_code.Elf.Relocations.{
  make_rels, off_file, with_relp, dwarf_elf_load_rela_32, dwarf_elf_load_rela_64,
}
use readelfobj_code.Elf.RelocationWords.{
  words_of_rela32, words_of_rela64, generic_rel_from, generic_rel_from_rela32,
  generic_rel_from_rela64,
}
use readelfobj_code.ObjectRead.{IsFile}
use readelfobj_code.ObjectRead.Ranges.{slice, take-slice}

-- The `count` relocations of the file from `offset` on, as they are handed up: `is` says what a
-- relocation is, given its bytes.
abbrev pub AreRelocations :
    (List ℕ → GenericRela → Type 0) → ℕ → List ℕ → ℕ → ℕ → List GenericRela → Type 0
AreRelocations is size bytes offset count rels =
    (length rels ≡ count)
    × ((i : ℕ)
        → i < count
        → (g : GenericRela) × (get_elem? rels i ≡ some g)
          × is (slice bytes (offset + size * i) size) g)

-- No answer leaves a block, and what `RO_OK` hands up.
abbrev pub GivesRelocations :
    (List ℕ → GenericRela → Type 0)
    → ℕ
    → List ℕ
    → ℕ
    → ℕ
    → Option (GenericShdr × Result (ℕ × Option (List GenericRela)))
    → Type 0
GivesRelocations is size bytes offset count answer =
    (r : GenericShdr × Result (ℕ × Option (List GenericRela))) × (answer ≡ some r)
    × ((stored : ℕ × Option (List GenericRela))
        → r.1 ≡ ok stored
        → (rels : List GenericRela) × (stored ≡ (count, some rels))
          × AreRelocations is size bytes offset count rels)

module _ (entry : List ℕ → GenericRela) (size : ℕ) (mismatch other : ErrCode) (lib : Library)
    (ep : ElfFiledata) (bytes : List ℕ) (offset count : ℕ) where
  generic_rel_from_lem :
      (psh : GenericShdr) (relp : List ℕ)
      → psh.gh_size / size ≡ count
      → size * count ≡ psh.gh_size
      → length relp ≡ psh.gh_size
      → (answer : Result (List GenericRela)) × (generic_rel_from entry size mismatch ep psh relp
            count
          ≡ some answer)
        × ((grel : List GenericRela) → answer ≡ ok grel → HasEntries entry size relp count grel)
  unfolding generic_rel_from
  generic_rel_from_lem psh relp parts whole n =
      let exact : not (psh.gh_size == count * size) ≡ false = ground (arith, mul_comm size count) in
      elim (Bool-cases (leb ep.f_filesize psh.gh_size)) [
        | inl b ↦ (
          err err_rel_section_size,
          rw (generic_rel_from, parts, exact, b) refl,
          λ grel q. absurd (err-neq-ok q),
        )
        | inr b ↦
            let (rels, e, has) =
              record_loop-HasEntries entry size count relp
                (entries_fit (size * count) psh.gh_size (length relp) whole n) in
            (
              ok rels,
              rw (generic_rel_from, parts, exact, b, e) refl,
              λ grel q. subst (λ g. HasEntries entry size relp count g) (ok-injective q) has,
            )
      ]

  pub make_rels-GivesRelocations :
      (is : List ℕ → GenericRela → Type 0) (decodes : (s : List ℕ) → is s (entry s))
      (psh : GenericShdr) (relp : List ℕ)
      → psh.gh_size / size ≡ count
      → size * count ≡ psh.gh_size
      → length relp ≡ psh.gh_size
      → relp ≡ slice bytes offset psh.gh_size
      → GivesRelocations is size bytes offset count
          (make_rels (generic_rel_from entry size mismatch ep) size other lib psh relp)
  unfolding make_rels
  make_rels-GivesRelocations is decodes psh relp parts whole n s =
      let exact : not (psh.gh_size == count * size) ≡ false = ground (arith, mul_comm size count) in
      let (answer, e, has) = generic_rel_from_lem psh relp parts whole n in
      elim (Bool-cases (lib.has_room count)) [
        | inr m ↦ (
          (psh, err err_malloc),
          rw (make_rels, parts, exact, m) refl,
          λ stored q. absurd (err-neq-ok q),
        )
        | inl m ↦ elim (Result-cases answer) [
          | inl a ↦ (
            (psh, no_entry),
            rw (make_rels, parts, exact, m, e, a) refl,
            λ stored q. absurd (no_entry-neq-ok q),
          )
          | inr (inl (code, a)) ↦ (
            (psh, err code),
            rw (make_rels, parts, exact, m, e, a) refl,
            λ stored q. absurd (err-neq-ok q),
          )
          | inr (inr (grel, a)) ↦
              let (len, each) = has grel a in
              (
                (psh, ok (count, some grel)),
                rw (make_rels, parts, exact, m, e, a)
                    (ap (λ c. some (psh, ok (c, some grel))) parts),
                λ stored q. (
                  grel,
                  sym (ok-injective q),
                  (
                    len,
                    λ i less. (
                      entry (slice bytes (offset + size * i) size),
                      each i less
                          ∙ ap (λ o. some (entry (slice o (size * i) size))) s
                          ∙ ap (λ t. some (entry t))
                              (take-slice bytes offset psh.gh_size size count i less
                                (omega (arith, whole))),
                      decodes (slice bytes (offset + size * i) size),
                    ),
                  ),
                ),
              )
        ]
      ]

module _ (host : Host) (lib : Library) (laws : IsLibrary lib) (ep : ElfFiledata) (bytes : List ℕ)
    (file : IsFile ep.f_fd bytes) (psh : GenericShdr) (plain : bit_and psh.gh_flags 0x800 ≡ 0)
    (count : ℕ) where
  -- Both classes: behind the guards, the section is read and `make_rels` has what was read.
  pub with_content-GivesRelocations :
      (is : List ℕ → GenericRela → Type 0) (entry : List ℕ → GenericRela)
      (decodes : (s : List ℕ) → is s (entry s)) (size : ℕ) (mismatch other : ErrCode)
      → psh.gh_size / size ≡ count
      → size * count ≡ psh.gh_size
      → GivesRelocations is size bytes psh.gh_offset count (
          with_content host lib ep psh (lib.malloc psh.gh_size) (λ psh'.
            make_rels
              (generic_rel_from entry size mismatch ep)
              size
              other
              lib
              psh'
              (bytes_at psh'.gh_content)))
  with_content-GivesRelocations is entry decodes size mismatch other parts whole =
      elim (with_content-ReadCases host lib ep bytes file psh plain _ (lib.malloc psh.gh_size)
        (λ b c h. laws.sized psh.gh_size b c)) [
          | inl r ↦ ((psh, no_entry), r, λ stored q. absurd (no_entry-neq-ok q))
          | inr (inl (code, r)) ↦ ((psh, err code), r, λ stored q. absurd (err-neq-ok q))
          | inr (inr (out, r, s, n)) ↦
              let (after, e, holds) =
                make_rels-GivesRelocations entry size mismatch other lib ep bytes psh.gh_offset
                  count is decodes (record psh { gh_content = some out }) out parts whole n s in
              (after, r ∙ e, holds)
        ]

  pub with_relp-GivesRelocations :
      (is : List ℕ → GenericRela → Type 0) (entry : List ℕ → GenericRela)
      (decodes : (s : List ℕ) → is s (entry s)) (size : ℕ) (mismatch other : ErrCode)
      (block : Option (List ℕ))
      → psh.gh_size / size ≡ count
      → size * count ≡ psh.gh_size
      → ((b : List ℕ) → block ≡ some b → length b ≡ psh.gh_size)
      → GivesRelocations is size bytes psh.gh_offset count (
          with_relp host lib ep psh block
            (make_rels (generic_rel_from entry size mismatch ep) size other lib))
  with_relp-GivesRelocations is entry decodes size mismatch other none parts whole room =
      ((psh, err err_malloc), refl, λ stored q. absurd (err-neq-ok q))
  with_relp-GivesRelocations is entry decodes size mismatch other (some b) parts whole room =
      let flag : (bit_and psh.gh_flags 0x800 == 0) ≡ true = ground arith in
      let (answer, e, holds) =
        read_at_offset_lem ep bytes file b psh.gh_offset psh.gh_size (λ h. room b refl) in
      elim (Result-cases answer) [
        | inl q ↦ ((psh, no_entry), rw (e, q) refl, λ stored o. absurd (no_entry-neq-ok o))
        | inr (inl (code, q)) ↦ ((psh, err code), rw (e, q) refl, λ stored o. absurd (err-neq-ok o))
        | inr (inr (out, q)) ↦
            let (s, n) = holds out q in
            let (after, made, has) =
              make_rels-GivesRelocations entry size mismatch other lib ep bytes psh.gh_offset count
                is decodes psh out parts whole n s in
            (after, rw (e, q, flag) made, has)
      ]

  pub load_rela_32-GivesRelocations :
      1 ≤ count
      → psh.gh_size ≡ 12 * count
      → GivesRelocations
          (IsRela32 host ep.f_copy_word)
          12
          bytes
          psh.gh_offset
          count
          (dwarf_elf_load_rela_32 host lib ep psh)
  unfolding dwarf_elf_load_rela_32 generic_rel_from_rela32
  load_rela_32-GivesRelocations some_rels whole =
      let not_empty : (psh.gh_size == 0) ≡ false = ground arith in
      elim (Bool-cases (off_file ep psh)) [
        | inl b ↦ (
          (psh, err err_file_offset_bad),
          rw (dwarf_elf_load_rela_32, not_empty, b) refl,
          λ stored q. absurd (err-neq-ok q),
        )
        | inr b ↦
            rw (dwarf_elf_load_rela_32, not_empty, b)
              (with_relp-GivesRelocations (IsRela32 host ep.f_copy_word)
                (words_of_rela32 host ep.f_copy_word) (words_of_rela32-IsRela32 host ep.f_copy_word)
                12 err_rel_section_size err_rel_section_size (lib.malloc psh.gh_size)
                (omega (arith, whole)) (sym whole) (laws.sized psh.gh_size))
      ]

  pub load_rela_64-GivesRelocations :
      1 ≤ count
      → psh.gh_size ≡ 24 * count
      → GivesRelocations
          (IsRela64 host lib ep)
          24
          bytes
          psh.gh_offset
          count
          (dwarf_elf_load_rela_64 host lib ep psh)
  unfolding dwarf_elf_load_rela_64 generic_rel_from_rela64
  load_rela_64-GivesRelocations some_rels whole =
      let not_empty : (psh.gh_size == 0) ≡ false = ground arith in
      elim (Bool-cases (off_file ep psh)) [
        | inl b ↦ (
          (psh, err err_file_offset_bad),
          rw (dwarf_elf_load_rela_64, not_empty, b) refl,
          λ stored q. absurd (err-neq-ok q),
        )
        | inr b ↦
            rw (dwarf_elf_load_rela_64, not_empty, b)
              (with_content-GivesRelocations (IsRela64 host lib ep) (words_of_rela64 host lib ep)
                (words_of_rela64-IsRela64 host lib ep) 24 err_rel_section_size
                err_rel_count_mismatch (omega (arith, whole)) (sym whole))
      ]

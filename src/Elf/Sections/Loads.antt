-- ===== src/Elf/Sections/Loads.antt =====
-- `elf_load_sectheaders32` and `elf_load_sectheaders64` of src/dwarf_load_elf_headers.c against the
-- section headers of the file.
use readelfobj_code.Base.{
  ℕ, ◌*◌, ◌^◌, ◌<◌, ◌≡◌, refl, sym, ap, ◌∙◌, inl, inr, true, false, ◌&&◌, not, Option, none, some,
  List, length, if◌then◌else◌, Bool-cases,
}
use mathlib.Core.Path.{subst}
use readelfobj_code.Bytes.{Host}
use readelfobj_code.Codes.{
  Result, ok, err, no_entry, no_entry-neq-ok, err-neq-ok, Result-cases, ok-injective,
}
use readelfobj_code.Elf.{GenericEhdr, GenericShdr, zero_shdr, ElfFiledata}
use readelfobj_code.Elf.Layout.{CopiesSections}
use readelfobj_code.Elf.Sections.{
  Platform, copysection32, copysection64, load_counted, set_index, count_or, extended_ehdr,
  with_counts, get_counts_from_sec32_zero, get_counts_from_sec64_zero, elf_load_sectheaders32,
  elf_load_sectheaders64,
}
use readelfobj_code.Elf.Sections.Inside.{IsLoaded, load_counted-SafelyLoads}
use readelfobj_code.ObjectRead.{Descriptor, IsFile, dwarf_object_read_random}
use readelfobj_code.ObjectRead.Ranges.{slice, dwarf_object_read_random-slice}

module _ (given : Platform) (fd : Descriptor) (bytes : List ℕ) (file : IsFile fd bytes)
    (blocks : (n k : ℕ) (block : List ℕ) → given.calloc n k ≡ some block → length block ≡ n * k)
    (short : length bytes < 2 ^ 56) (ep : ElfFiledata) (is_fd : ep.f_fd ≡ fd)
    (is_size : ep.f_filesize ≡ length bytes)
    (marked : ep.f_ehdr.ge_shnum_in_shnum ≡ not ep.f_ehdr.ge_shnum_extended)
    (offset entsize : ℕ) where
  ep-IsFile : IsFile ep.f_fd bytes
  ep-IsFile = subst (λ d. IsFile d bytes) (sym is_fd) file

  module _ (copysection : GenericShdr → List ℕ → GenericShdr) (size align : ℕ) where
    -- The count of the header, or the one of section zero where the header says so.
    abbrev pub section_count : ℕ
    section_count =
        if ep.f_ehdr.ge_shnum_extended
        then (copysection zero_shdr (slice bytes offset size)).gh_size
        else ep.f_ehdr.ge_shnum

    -- No answer leaves a block, and after `DW_DLV_OK` the table of the file is there.
    abbrev pub LoadsTable : Option (ElfFiledata × Result (Unit {0})) → Type 0
    LoadsTable answer =
        (r : ElfFiledata × Result (Unit {0})) × (answer ≡ some r)
        × (r.1 ≡ ok tt
            → IsLoaded copysection size entsize bytes offset section_count align ep.f_in_use r.0)

    -- The step behind the counts.
    load : ElfFiledata → ℕ → Option (ElfFiledata × Result (Unit {0}))
    load ep' finalcount = load_counted copysection size given ep' offset entsize finalcount align

    load-LoadsTable :
        (geh : GenericEhdr) (index : Option ℕ) (count : ℕ)
        → count ≡ section_count
        → LoadsTable (load (set_index (record ep { f_ehdr = geh }) index) count)
    unfolding load
    load-LoadsTable geh none count e =
        subst
          (λ n. LoadsTable (
            load_counted copysection size given (set_index (record ep { f_ehdr = geh }) none) offset
              entsize n align))
          (sym e)
          (load_counted-SafelyLoads copysection size entsize given fd bytes file blocks short
            (set_index (record ep { f_ehdr = geh }) none) is_fd is_size offset section_count align)
    load-LoadsTable geh (some index) count e =
        subst
          (λ n. LoadsTable (
            load_counted copysection size given
              (set_index (record ep { f_ehdr = geh }) (some index)) offset entsize n align))
          (sym e)
          (load_counted-SafelyLoads copysection size entsize given fd bytes file blocks short
            (set_index (record ep { f_ehdr = geh }) (some index)) is_fd is_size offset section_count
            align)

    own_count :
        (ep.f_ehdr.ge_shnum_in_shnum && ep.f_ehdr.ge_strndx_in_strndx) ≡ true
        → ep.f_ehdr.ge_shnum ≡ section_count
    own_count b = elim (Bool-cases ep.f_ehdr.ge_shnum_extended) [
      | inl x ↦
          let not_here : ep.f_ehdr.ge_shnum_in_shnum ≡ false = marked ∙ ap not x in
          let nothing : false ≡ true =
            sym (ap (λ h. h && ep.f_ehdr.ge_strndx_in_strndx) not_here) ∙ b in
          cc
      | inr x ↦ rw x refl
    ]

    with_counts-LoadsTable :
        (counts : Result (GenericEhdr × Option ℕ × Option ℕ))
        → ((geh : GenericEhdr) (count index : Option ℕ)
            → counts ≡ ok (geh, count, index)
            → count_or ep.f_ehdr.ge_shnum count ≡ section_count)
        → LoadsTable (with_counts ep counts load)
    with_counts-LoadsTable counts right =
        elim (Bool-cases (ep.f_ehdr.ge_shnum_in_shnum && ep.f_ehdr.ge_strndx_in_strndx)) [
          | inl b ↦
              let same : with_counts ep counts load ≡ load (set_index ep none) ep.f_ehdr.ge_shnum =
                rw b refl in
              subst LoadsTable (sym same)
                (load-LoadsTable ep.f_ehdr none ep.f_ehdr.ge_shnum (own_count b))
          | inr b ↦ elim (Result-cases counts) [
            | inl r ↦ ((ep, no_entry), rw (b, r) refl, λ q. absurd (no_entry-neq-ok q))
            | inr (inl (code, r)) ↦ ((ep, err code), rw (b, r) refl, λ q. absurd (err-neq-ok q))
            | inr (inr ((geh, count, index), r)) ↦
                let same : with_counts ep counts load
                    ≡ load (set_index (record ep { f_ehdr = geh }) index)
                        (count_or ep.f_ehdr.ge_shnum count) =
                  rw (b, r) refl in
                subst LoadsTable (sym same) (
                  load-LoadsTable geh index (count_or ep.f_ehdr.ge_shnum count)
                    (right geh count index r))
          ]
        ]

  -- The count with the one of section zero in place of it.
  abbrev counted_by : GenericShdr → ℕ
  counted_by shdg = if ep.f_ehdr.ge_shnum_extended then shdg.gh_size else ep.f_ehdr.ge_shnum

  extended_ehdr-count :
      (shdg : GenericShdr)
      → ((extended_ehdr ep.f_ehdr shdg).ge_shnum ≡ counted_by shdg)
        × (count_or ep.f_ehdr.ge_shnum (
              if (extended_ehdr ep.f_ehdr shdg).ge_shnum_extended
              then some (extended_ehdr ep.f_ehdr shdg).ge_shnum
              else none)
            ≡ counted_by shdg)
  extended_ehdr-count shdg = elim (Bool-cases ep.f_ehdr.ge_shnum_extended) [
    | inl x ↦ elim (Bool-cases ep.f_ehdr.ge_strndx_extended) [
      | inl y ↦ (rw (x, y) refl, rw (x, y) refl)
      | inr y ↦ (rw (x, y) refl, rw (x, y) refl)
    ]
    | inr x ↦ elim (Bool-cases ep.f_ehdr.ge_strndx_extended) [
      | inl y ↦ (rw (x, y) refl, rw (x, y) refl)
      | inr y ↦ (rw (x, y) refl, rw (x, y) refl)
    ]
  ]

  module _ (host : Host) (geh : GenericEhdr) (count index : Option ℕ) where
    -- What section zero says.
    right_count32 :
        get_counts_from_sec32_zero host ep offset ≡ ok (geh, count, index)
        → count_or ep.f_ehdr.ge_shnum count ≡ section_count (copysection32 host ep.f_copy_word) 40 4
    unfolding get_counts_from_sec32_zero
    right_count32 e =
        elim (Result-cases (dwarf_object_read_random ep.f_fd offset 40 ep.f_filesize)) [
          | inl r ↦ absurd (no_entry-neq-ok (rw (get_counts_from_sec32_zero, r) at e))
          | inr (inl (code, r)) ↦ absurd (err-neq-ok (rw (get_counts_from_sec32_zero, r) at e))
          | inr (inr (shd32, r)) ↦
              let shdg = copysection32 host ep.f_copy_word zero_shdr shd32 in
              let (s, n) =
                dwarf_object_read_random-slice ep.f_fd bytes ep-IsFile offset 40 ep.f_filesize shd32
                  r in
              let got = ap (λ t. t.1) (ok-injective (rw (get_counts_from_sec32_zero, r) at e)) in
              ap (count_or ep.f_ehdr.ge_shnum) (sym got)
              ∙ (extended_ehdr-count shdg).1
              ∙ ap (λ m. counted_by (copysection32 host ep.f_copy_word zero_shdr m)) s
        ]

    right_count64 :
        get_counts_from_sec64_zero host ep offset ≡ ok (geh, count, index)
        → count_or ep.f_ehdr.ge_shnum count ≡ section_count (copysection64 host ep.f_copy_word) 64 8
    unfolding get_counts_from_sec64_zero
    right_count64 e =
        elim (Result-cases (dwarf_object_read_random ep.f_fd offset 64 ep.f_filesize)) [
          | inl r ↦ absurd (no_entry-neq-ok (rw (get_counts_from_sec64_zero, r) at e))
          | inr (inl (code, r)) ↦ absurd (err-neq-ok (rw (get_counts_from_sec64_zero, r) at e))
          | inr (inr (shd64, r)) ↦
              let shdg = copysection64 host ep.f_copy_word zero_shdr shd64 in
              let (s, n) =
                dwarf_object_read_random-slice ep.f_fd bytes ep-IsFile offset 64 ep.f_filesize shd64
                  r in
              let got = ap (λ t. t.1) (ok-injective (rw (get_counts_from_sec64_zero, r) at e)) in
              ap (count_or ep.f_ehdr.ge_shnum) (sym got)
              ∙ (extended_ehdr-count shdg).0
              ∙ ap (λ m. counted_by (copysection64 host ep.f_copy_word zero_shdr m)) s
        ]

  -- For a file below 2^56 bytes and an Elf header whose marks agree, `elf_load_sectheaders32` and
  -- `elf_load_sectheaders64` never leave a block, whatever the header says. When one is `DW_DLV_OK`,
  -- the table lies inside the file, the number of section headers is the header's or the one in
  -- section zero, header number i is the 40 or 64 bytes at i times that size behind the table's
  -- start, and exactly the bytes of the sections that are not empty, and then the table, are noted
  -- as in use. The words of a header are those that stand one behind the other in its bytes, in the
  -- order and the sizes of the structure.
  pub elf_load_sectheaders-LoadsTable :
      (host : Host)
      → LoadsTable
          (copysection32 host ep.f_copy_word)
          40
          4
          (elf_load_sectheaders32 host given ep offset entsize)
        × LoadsTable
            (copysection64 host ep.f_copy_word)
            64
            8
            (elf_load_sectheaders64 host given ep offset entsize)
        × CopiesSections host ep.f_copy_word 4 (copysection32 host ep.f_copy_word)
        × CopiesSections host ep.f_copy_word 8 (copysection64 host ep.f_copy_word)
  unfolding elf_load_sectheaders32 elf_load_sectheaders64 load copysection32 copysection64
  elf_load_sectheaders-LoadsTable host = (
    with_counts-LoadsTable (copysection32 host ep.f_copy_word) 40 4
        (get_counts_from_sec32_zero host ep offset) (right_count32 host),
    with_counts-LoadsTable (copysection64 host ep.f_copy_word) 64 8
        (get_counts_from_sec64_zero host ep offset) (right_count64 host),
    λ g s. refl,
    λ g s. refl,
  )

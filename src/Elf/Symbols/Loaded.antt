-- ===== src/Elf/Symbols/Loaded.antt =====
-- The symbols that src/dwarf_load_elf_headers.c keeps of a section, against the bytes of the file.
use readelfobj_code.Base.{
  ℕ, ◌+◌, ◌*◌, ◌/◌, ◌%◌, ◌^◌, ◌<◌, ◌≡◌, inl, inr, refl, sym, ap, ◌∙◌, arith, not, bit_and, false,
  Option, some, List, length, get_elem?, leb, ◌==◌, if◌then◌else◌, length-replicate, Bool-cases,
}
use native.Mathlib.Nat.{mul_comm}
use readelfobj_code.Bytes.{Host}
use readelfobj_code.Codes.{
  Result, ok, err, no_entry, err_malloc, err_section_size, err_badoffsetsize, no_entry-neq-ok,
  err-neq-ok,
}
use readelfobj_code.Elf.{GenericSymentry, GenericShdr, ElfFiledata}
use readelfobj_code.Elf.Content.{with_content}
use readelfobj_code.Elf.Content.Read.{with_content-ReadCases}
use readelfobj_code.Elf.Decompress.{Library}
use readelfobj_code.Elf.Decompress.Sizes.{IsLibrary}
use readelfobj_code.Elf.Layout.{IsSymbol32, IsSymbol64, IsSymbol}
use readelfobj_code.Elf.Layout.Decoded.{words_of_sym32-IsSymbol32, words_of_sym64-IsSymbol64}
use readelfobj_code.Elf.Records.{record_loop-HasEntries, entries_fit}
use readelfobj_code.Elf.Symbols.{
  words_of_sym32, words_of_sym64, keep_symbols, dwarf_generic_elf_load_symbols32,
  dwarf_generic_elf_load_symbols64, dwarf_generic_elf_load_symbols, dwarf_load_elf_symtab_symbols,
}
use readelfobj_code.ObjectRead.{IsFile}
use readelfobj_code.ObjectRead.Ranges.{slice, take-slice}

-- The `count` symbols of the file from `offset` on, as a section keeps them: `is` says what a symbol
-- is, given its bytes.
pub record HasSymbols (is : List ℕ → GenericSymentry → Type 0) (size : ℕ) (bytes : List ℕ)
    (offset count : ℕ) (after : GenericShdr) : Type 0 where
  pub symbols : List GenericSymentry
  pub kept : after.gh_sym ≡ some symbols
  pub has_count : length symbols ≡ count
  pub counted : after.gh_location.g_count ≡ count
  pub symbol :
      (i : ℕ)
      → i < count
      → (g : GenericSymentry) × (get_elem? symbols i ≡ some g)
        × is (slice bytes (offset + size * i) size) g

-- No answer leaves a block, and what `RO_OK` keeps.
abbrev pub LoadsSymbols :
    (List ℕ → GenericSymentry → Type 0)
    → ℕ
    → List ℕ
    → ℕ
    → ℕ
    → Option (GenericShdr × Result (Unit {0}))
    → Type 0
LoadsSymbols is size bytes offset count answer =
    (r : GenericShdr × Result (Unit {0})) × (answer ≡ some r)
    × (r.1 ≡ ok tt → HasSymbols is size bytes offset count r.0)

keep_symbols-LoadsSymbols :
    (is : List ℕ → GenericSymentry → Type 0) (entry : List ℕ → GenericSymentry)
    (decodes : (s : List ℕ) → is s (entry s)) (sizeof : ℕ) (lib : Library) (bytes : List ℕ)
    (psh : GenericShdr) (count : ℕ) (out : List ℕ)
    → psh.gh_size / sizeof ≡ count
    → sizeof * count ≡ psh.gh_size
    → out ≡ slice bytes psh.gh_offset psh.gh_size
    → length out ≡ psh.gh_size
    → LoadsSymbols is sizeof bytes psh.gh_offset count (
        keep_symbols entry sizeof lib psh.gh_offset psh.gh_size
          (record psh { gh_content = some out }))
unfolding keep_symbols
keep_symbols-LoadsSymbols is entry decodes sizeof lib bytes psh count out parts whole s n =
    let filled = record psh { gh_content = some out } in
    let exact : not (count * sizeof == psh.gh_size) ≡ false =
      ground (arith, mul_comm sizeof count) in
    elim (Bool-cases (lib.has_room count)) [
      | inr m ↦ (
        (filled, err err_malloc),
        rw (keep_symbols, parts, exact, m) refl,
        λ q. absurd (err-neq-ok q),
      )
      | inl m ↦
          let (syms, e, (len, each)) =
            record_loop-HasEntries entry sizeof count out
              (entries_fit (sizeof * count) psh.gh_size (length out) whole n) in
          (
            (
              record filled {
                gh_location = record {
                  g_offset = psh.gh_offset;
                  g_count = count;
                  g_entrysize = sizeof;
                  g_totalsize = count * sizeof;
                };
                gh_sym = some syms;
              },
              ok tt,
            ),
            rw (keep_symbols, parts, exact, m, parts, e) refl,
            λ q. record {
              symbols = syms;
              kept = refl;
              has_count = len;
              counted = refl;
              symbol = λ i less. (
                entry (slice bytes (psh.gh_offset + sizeof * i) sizeof),
                each i less
                    ∙ ap (λ o. some (entry (slice o (sizeof * i) sizeof))) s
                    ∙ ap (λ t. some (entry t))
                        (take-slice bytes psh.gh_offset psh.gh_size sizeof count i less
                          (omega (arith, whole))),
                decodes (slice bytes (psh.gh_offset + sizeof * i) sizeof),
              );
            },
          )
    ]

-- The size of a symbol of an object with the class of `ep`.
abbrev pub symbol_size : ElfFiledata → ℕ
symbol_size ep = if ep.f_offsetsize == 32 then 16 else 24

module _ (host : Host) (lib : Library) (laws : IsLibrary lib) (ep : ElfFiledata) (bytes : List ℕ)
    (file : IsFile ep.f_fd bytes) (psh : GenericShdr) (plain : bit_and psh.gh_flags 0x800 ≡ 0)
    (count : ℕ) where
  -- Once the section is read, what `keep` does with it is left.
  with_content-LoadsSymbols :
      (is : List ℕ → GenericSymentry → Type 0) (sizeof : ℕ)
      (keep : GenericShdr → Option (GenericShdr × Result (Unit {0})))
      → ((out : List ℕ)
          → out ≡ slice bytes psh.gh_offset psh.gh_size
          → length out ≡ psh.gh_size
          → LoadsSymbols is sizeof bytes psh.gh_offset count
              (keep (record psh { gh_content = some out })))
      → LoadsSymbols is sizeof bytes psh.gh_offset count
          (with_content host lib ep psh (lib.calloc psh.gh_size) keep)
  with_content-LoadsSymbols is sizeof keep loads =
      elim (with_content-ReadCases host lib ep bytes file psh plain keep (lib.calloc psh.gh_size)
        (λ b c h. ap length (laws.zeroed psh.gh_size b c) ∙ length-replicate psh.gh_size 0)) [
          | inl r ↦ ((psh, no_entry), r, λ q. absurd (no_entry-neq-ok q))
          | inr (inl (code, r)) ↦ ((psh, err code), r, λ q. absurd (err-neq-ok q))
          | inr (inr (out, r, s, n)) ↦
              let (after, e, holds) = loads out s n in (after, r ∙ e, holds)
        ]

  load_symbols32-LoadsSymbols :
      psh.gh_size ≡ 16 * count
      → LoadsSymbols
          (IsSymbol32 host ep.f_copy_word)
          16
          bytes
          psh.gh_offset
          count
          (dwarf_generic_elf_load_symbols32 host lib ep psh)
  unfolding dwarf_generic_elf_load_symbols32
  load_symbols32-LoadsSymbols whole =
      with_content-LoadsSymbols (IsSymbol32 host ep.f_copy_word) 16 _ (λ out s n.
        keep_symbols-LoadsSymbols (IsSymbol32 host ep.f_copy_word)
          (words_of_sym32 host ep.f_copy_word) (words_of_sym32-IsSymbol32 host ep.f_copy_word) 16
          lib bytes psh count out (omega (arith, whole)) (sym whole) s n)

  load_symbols64-LoadsSymbols :
      psh.gh_size ≡ 24 * count
      → LoadsSymbols
          (IsSymbol64 host ep.f_copy_word)
          24
          bytes
          psh.gh_offset
          count
          (dwarf_generic_elf_load_symbols64 host lib ep psh)
  unfolding dwarf_generic_elf_load_symbols64
  load_symbols64-LoadsSymbols whole =
      with_content-LoadsSymbols (IsSymbol64 host ep.f_copy_word) 24 _ (λ out s n.
        keep_symbols-LoadsSymbols (IsSymbol64 host ep.f_copy_word)
          (words_of_sym64 host ep.f_copy_word) (words_of_sym64-IsSymbol64 host ep.f_copy_word) 24
          lib bytes psh count out (omega (arith, whole)) (sym whole) s n)

  -- Let a section that is not compressed have room for exactly `count` symbols of the object's class,
  -- and let the allocators do what they promise. Then `dwarf_load_elf_symtab_symbols` never leaves a
  -- block, and when it returns `DW_DLV_OK` the section has exactly `count` symbols. Number i has the
  -- words that stand one behind the other, in the order and the sizes of the structure, in the 16 or 24
  -- bytes of the file at i times that size behind the section's start; its binding and its type are
  -- the upper and the lower four bits of `st_info`.
  pub dwarf_load_elf_symtab_symbols-LoadsSymbols :
      psh.gh_size ≡ symbol_size ep * count
      → LoadsSymbols
          (IsSymbol host ep)
          (symbol_size ep)
          bytes
          psh.gh_offset
          count
          (dwarf_load_elf_symtab_symbols host lib ep psh)
  unfolding dwarf_load_elf_symtab_symbols dwarf_generic_elf_load_symbols
  dwarf_load_elf_symtab_symbols-LoadsSymbols whole = elim (Bool-cases (psh.gh_secnum == 0)) [
    | inl z ↦ (
      (psh, no_entry),
      rw (dwarf_load_elf_symtab_symbols, z) refl,
      λ q. absurd (no_entry-neq-ok q),
    )
    | inr z ↦ elim (Bool-cases (psh.gh_secnum % 2 ^ 32 == 0)) [
      | inl y ↦ (
        (psh, no_entry),
        rw (dwarf_load_elf_symtab_symbols, dwarf_generic_elf_load_symbols, z, y) refl,
        λ q. absurd (no_entry-neq-ok q),
      )
      | inr y ↦ elim (Bool-cases (leb ep.f_filesize psh.gh_size)) [
        | inl b ↦ (
          (psh, err err_section_size),
          rw (dwarf_load_elf_symtab_symbols, dwarf_generic_elf_load_symbols, z, y, b) refl,
          λ q. absurd (err-neq-ok q),
        )
        | inr b ↦ elim (Bool-cases (ep.f_offsetsize == 32)) [
          | inl c ↦
              rw (c, dwarf_load_elf_symtab_symbols, dwarf_generic_elf_load_symbols, z, y, b)
                (load_symbols32-LoadsSymbols (rw c at whole))
          | inr c ↦ elim (Bool-cases (ep.f_offsetsize == 64)) [
            | inl d ↦
                rw (c, dwarf_load_elf_symtab_symbols, dwarf_generic_elf_load_symbols, z, y, b, d)
                  (load_symbols64-LoadsSymbols (rw c at whole))
            | inr d ↦ (
              (psh, err err_badoffsetsize),
              rw (dwarf_load_elf_symtab_symbols, dwarf_generic_elf_load_symbols, z, y, b, c, d)
                  refl,
              λ q. absurd (err-neq-ok q),
            )
          ]
        ]
      ]
    ]
  ]

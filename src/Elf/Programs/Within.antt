-- ===== src/Elf/Programs/Within.antt =====
-- The program headers that src/dwarf_load_elf_headers.c reads, against the bytes of the file.
use readelfobj_code.Base.{
  ℕ, ◌+◌, ◌*◌, ◌^◌, ◌≤◌, ◌<◌, ◌≡◌, ◌≢◌, ◌⊎◌, refl, sym, ap, ◌∙◌, arith, inl, inr, ◌||◌, Option,
  some, List, [], ◌∷◌, ◌++◌, length, take, drop, ltb, ◌==◌, Bool-cases, Option-cases,
}
use mathlib.Core.List.{append_assoc}
use mathlib.Core.Path.{subst}
use native.Mathlib.Nat.{mul-le-mul_right, mul-le-mul, zero-add}
use readelfobj_code.Base.Memory.{◌>>=◌, store_all-whole}
use readelfobj_code.Base.Words.{u64}
use readelfobj_code.Bytes.{Host}
use readelfobj_code.Codes.{
  ok, err, no_entry, ErrCode, err_malloc, err_toosmall, err_file_offset_bad, Result-cases,
}
use readelfobj_code.Elf.{GenericPhdr, ElfFiledata, InUse, dwarf_insert_in_use_entry}
use readelfobj_code.Elf.Programs.{
  Returned, returns, returns_number, generic_phdr_from, load_progheaders, words_of_phdr32,
  words_of_phdr64, elf_load_progheaders32, elf_load_progheaders64,
}
use readelfobj_code.Elf.Layout.{CopiesSegments32, CopiesSegments64}
use readelfobj_code.Elf.Sections.{Platform}
use readelfobj_code.ObjectRead.{Descriptor, IsFile, dwarf_object_read_random}
use readelfobj_code.ObjectRead.Ranges.{slice, take-slice, dwarf_object_read_random-slice}
use readelfobj_code.Elf.Programs.Segments.{
  headers, length-headers, get_elem?-headers, phdr_loop_lem, insert_all, insert_all-in_use,
  segments, HasSegments,
}

module _ (words_of_phdr : List ℕ → GenericPhdr) (size : ℕ) (no_memory : Returned) where
  module _ (given : Platform) (fd : Descriptor) (bytes : List ℕ) (file : IsFile fd bytes)
      (blocks : (n k : ℕ) (block : List ℕ) → given.calloc n k ≡ some block → length block ≡ n * k)
      (short : length bytes < 2 ^ 56) (ep : ElfFiledata) (is_fd : ep.f_fd ≡ fd)
      (is_size : ep.f_filesize ≡ length bytes) (offset entsize count : ℕ)
      (fails : no_memory ≢ returns (ok tt)) where
    -- No answer leaves a block, and what `DW_DLV_OK` keeps.
    abbrev pub SafelyReads : Option (ElfFiledata × Returned) → Type 0
    SafelyReads answer =
        (r : ElfFiledata × Returned) × (answer ≡ some r)
        × (r.1 ≡ returns (ok tt)
            → HasSegments words_of_phdr size bytes offset entsize count ep.f_in_use r.0)

    -- The state behind the loop over the headers of `filled`.
    abbrev kept : List ℕ → ElfFiledata
    kept filled = record (insert_all ep (headers words_of_phdr size filled 0 count)) {
      f_phdr = headers words_of_phdr size filled 0 count;
      f_loc_phdr = record {
        g_offset = offset;
        g_count = count;
        g_entrysize = size;
        g_totalsize = u64 (size * count);
      };
    }

    -- What reading the table may answer: a failure, or the headers of the file.
    abbrev ReadAnswer : Option (ElfFiledata × Returned) → Type 0
    ReadAnswer answer =
        (answer ≡ some (ep, no_memory))
        ⊎ (answer ≡ some (ep, returns no_entry))
        ⊎ ((code : ErrCode) × (answer ≡ some (ep, returns (err code))))
        ⊎ ((out : List ℕ) × (answer ≡ some (kept out, returns (ok tt)))
            × (out ≡ slice bytes offset (count * entsize)))

    generic_phdr_from-ReadAnswer :
        count * entsize < 2 ^ 64
        → size * count ≤ count * entsize
        → ReadAnswer (generic_phdr_from words_of_phdr size no_memory given ep offset entsize count)
    unfolding generic_phdr_from
    generic_phdr_from-ReadAnswer wide many = elim (Option-cases (given.calloc count entsize)) [
      | inl c ↦ inl (rw (generic_phdr_from, c) refl)
      | inr (block, c) ↦ elim (Bool-cases (given.has_room count)) [
        | inr m ↦ inl (rw (generic_phdr_from, c, m) refl)
        | inl m ↦
            elim (Result-cases
              (dwarf_object_read_random ep.f_fd offset (u64 (count * entsize)) ep.f_filesize)) [
                | inl r ↦ inr (inl (rw (generic_phdr_from, c, m, r) refl))
                | inr (inl (code, r)) ↦ inr (inr (inl (code, rw (generic_phdr_from, c, m, r) refl)))
                | inr (inr (out, r)) ↦
                    let whole : u64 (count * entsize) ≡ count * entsize = omega arith in
                    let file' : IsFile ep.f_fd bytes =
                      subst (λ d. IsFile d bytes) (sym is_fd) file in
                    let (s, n) =
                      dwarf_object_read_random-slice ep.f_fd bytes file' offset
                        (u64 (count * entsize)) ep.f_filesize out r in
                    let stored =
                      store_all-whole block out (n ∙ whole ∙ sym (blocks count entsize block c)) in
                    let looped =
                      phdr_loop_lem words_of_phdr size no_memory count ep out 0
                        (omega (arith, n, whole)) in
                    inr (
                      inr (
                        inr (
                          out,
                          rw (generic_phdr_from, c, m, r, stored, looped) refl,
                          s ∙ ap (slice bytes offset) whole,
                        )))
              ]
      ]
    ]

    kept-HasSegments :
        (out : List ℕ)
        → out ≡ slice bytes offset (count * entsize)
        → size ≤ entsize
        → size * count ≤ count * entsize
        → offset + count * entsize ≤ length bytes
        → HasSegments words_of_phdr size bytes offset entsize count ep.f_in_use
            (dwarf_insert_in_use_entry (kept out) offset (u64 (entsize * count)) 4)
    unfolding dwarf_insert_in_use_entry
    kept-HasSegments out e wide many inside =
        let hs = headers words_of_phdr size out 0 count in
        let put : InUse = record {
          u_offset = offset;
          u_align = 4;
          u_length = u64 (entsize * count);
          u_lastbyte = u64 (offset + u64 (entsize * count));
        } in
        let turned : u64 (entsize * count) ≡ entsize * count = omega arith in
        let ends : u64 (offset + u64 (entsize * count)) ≡ offset + entsize * count = omega arith in
        record {
          has_count = length-headers words_of_phdr size out 0 count;
          counted = refl;
          wide = wide;
          inside = omega arith;
          header = λ i less.
              get_elem?-headers words_of_phdr size out 0 count i less
              ∙ ap (λ q. some (words_of_phdr (take size (drop q out)))) (zero-add (size * i))
              ∙ ap (λ o. some (words_of_phdr (take size (drop (size * i) o)))) e
              ∙ ap (λ t. some (words_of_phdr t))
                  (take-slice bytes offset (count * entsize) size count i less many);
          in_use =
              ap (λ l. l ++ put ∷ []) (insert_all-in_use hs ep)
              ∙ append_assoc ep.f_in_use (segments hs) (put ∷ [])
              ∙ rw (ends, turned) refl;
        }

    -- The step behind the guards.
    after_guards : Option (ElfFiledata × Returned) → Option (ElfFiledata × Returned)
    after_guards m = m >>= λ (ep', res). elim res [
      | returns_number n ↦ some (ep', returns_number n)
      | returns answer ↦ elim answer [
        | no_entry ↦ some (ep', returns no_entry)
        | err code ↦ some (ep', returns (err code))
        | ok done ↦
            some (dwarf_insert_in_use_entry ep' offset (u64 (entsize * count)) 4, returns (ok done))
      ]
    ]

    after_guards-fails :
        (r : Returned) → r ≢ returns (ok tt) → after_guards (some (ep, r)) ≡ some (ep, r)
    unfolding after_guards
    after_guards-fails (returns_number n) h = refl
    after_guards-fails (returns no_entry) h = refl
    after_guards-fails (returns (err code)) h = refl
    after_guards-fails (returns (ok done)) h = absurd (h refl)

    load_read :
        size ≤ entsize
        → size * count ≤ count * entsize
        → offset + count * entsize ≤ length bytes
        → SafelyReads (
            after_guards
              (generic_phdr_from words_of_phdr size no_memory given ep offset entsize count))
    unfolding after_guards
    load_read wide many inside = elim (generic_phdr_from-ReadAnswer (omega arith) many) [
      | inl r ↦ (
        (ep, no_memory),
        ap after_guards r ∙ after_guards-fails no_memory fails,
        λ q. absurd (fails q),
      )
      | inr (inl r) ↦ ((ep, returns no_entry), rw r refl, λ q. absurd (cc))
      | inr (inr (inl (code, r))) ↦ ((ep, returns (err code)), rw r refl, λ q. absurd (cc))
      | inr (inr (inr (out, r, s))) ↦ (
        (dwarf_insert_in_use_entry (kept out) offset (u64 (entsize * count)) 4, returns (ok tt)),
        rw r refl,
        λ q. kept-HasSegments out s wide many inside,
      )
    ]

    pub load_progheaders-SafelyReads :
        SafelyReads (load_progheaders words_of_phdr size no_memory given ep offset entsize count)
    unfolding load_progheaders after_guards
    load_progheaders-SafelyReads =
        let bad =
          ltb ep.f_filesize offset
          || ltb 200 entsize
          || ltb ep.f_filesize count
          || ltb ep.f_filesize (u64 (count * entsize + offset)) in
        elim (Bool-cases (count == 0)) [
          | inl z ↦ ((ep, returns no_entry), rw z refl, λ q. absurd (cc))
          | inr z ↦ elim (Bool-cases (ltb entsize size)) [
            | inl a ↦ ((ep, returns (err err_toosmall)), rw (z, a) refl, λ q. absurd (cc))
            | inr a ↦ elim (Bool-cases bad) [
              | inl b ↦
                  ((ep, returns (err err_file_offset_bad)), rw (z, a, b) refl, λ q. absurd (cc))
              | inr b ↦
                  let wide : size ≤ entsize = ground arith in
                  let few : count ≤ length bytes = ground arith in
                  let low : entsize ≤ 200 = ground arith in
                  let most = mul-le-mul few low in
                  let many : size * count ≤ count * entsize =
                    omega (arith, mul-le-mul_right count wide) in
                  let inside : offset + count * entsize ≤ length bytes = ground arith in
                  let steps : load_progheaders words_of_phdr size no_memory given ep offset entsize
                        count
                      ≡ after_guards (
                          generic_phdr_from words_of_phdr size no_memory given ep offset entsize
                            count) =
                    rw (z, a, b) refl in
                  subst SafelyReads (sym steps) (load_read wide many inside)
            ]
          ]
        ]

-- For a file below 2^56 bytes, `elf_load_progheaders32` and `elf_load_progheaders64` never leave a
-- block, whatever offset, entry size and count are asked for. When one returns `DW_DLV_OK`, the table
-- lies inside the file, there are as many program headers as were asked for, number i is the 32 or 56
-- bytes at i times that size behind the table's start, and exactly the segments that have a place or a
-- size, and then the table, are noted as in use. The words of a header are those that stand one behind
-- the other in its bytes, in the order and the sizes of the structure.
pub elf_load_progheaders-SafelyReads :
    (host : Host) (given : Platform) (fd : Descriptor) (bytes : List ℕ) (file : IsFile fd bytes)
    → ((n k : ℕ) (block : List ℕ) → given.calloc n k ≡ some block → length block ≡ n * k)
    → length bytes < 2 ^ 56
    → (ep : ElfFiledata) → ep.f_fd ≡ fd
    → ep.f_filesize ≡ length bytes
    → (offset entsize count : ℕ)
    → ((r : ElfFiledata × Returned) × (elf_load_progheaders32 host given ep offset entsize count
          ≡ some r)
        × (r.1 ≡ returns (ok tt)
            → HasSegments
                (words_of_phdr32 host ep.f_copy_word)
                32
                bytes
                offset
                entsize
                count
                ep.f_in_use
                r.0))
      × ((r : ElfFiledata × Returned) × (elf_load_progheaders64 host given ep offset entsize count
            ≡ some r)
          × (r.1 ≡ returns (ok tt)
              → HasSegments
                  (words_of_phdr64 host ep.f_copy_word)
                  56
                  bytes
                  offset
                  entsize
                  count
                  ep.f_in_use
                  r.0))
      × CopiesSegments32 host ep.f_copy_word (words_of_phdr32 host ep.f_copy_word)
      × CopiesSegments64 host ep.f_copy_word (words_of_phdr64 host ep.f_copy_word)
unfolding elf_load_progheaders32 elf_load_progheaders64 words_of_phdr32 words_of_phdr64
elf_load_progheaders-SafelyReads host given fd bytes file blocks short ep is_fd is_size offset
      entsize count =
    (
      load_progheaders-SafelyReads (words_of_phdr32 host ep.f_copy_word) 32
          (returns (err err_malloc)) given fd bytes file blocks short ep is_fd is_size offset
          entsize count (λ q. cc),
      load_progheaders-SafelyReads (words_of_phdr64 host ep.f_copy_word) 56 (returns_number 4) given
          fd bytes file blocks short ep is_fd is_size offset entsize count (λ q. cc),
      λ s. refl,
      λ s. refl,
    )

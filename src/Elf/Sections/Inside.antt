-- ===== src/Elf/Sections/Inside.antt =====
-- The section headers that src/dwarf_load_elf_headers.c reads, against the bytes of the file.
use readelfobj_code.Base.{
  ℕ, ◌+◌, ◌*◌, ◌^◌, ◌≤◌, ◌<◌, ◌≡◌, refl, sym, ap, ◌∙◌, arith, inl, inr, true, ◌||◌, Option, some,
  List, [], ◌∷◌, ◌++◌, length, take, drop, get_elem?, ltb, ◌==◌, if◌then◌else◌, Bool-cases,
  Option-cases, ◌⊎◌,
}
use mathlib.Core.List.{append_assoc}
use mathlib.Core.Path.{subst}
use native.Mathlib.Nat.{mul-le-mul_right, mul-le-mul, zero-add}
use readelfobj_code.Base.Memory.{◌>>=◌, store_all-whole}
use readelfobj_code.Base.Words.{u64}
use readelfobj_code.Codes.{
  Result, ok, err, no_entry, no_entry-neq-ok, err-neq-ok, Result-cases, ErrCode, err_malloc,
  err_toosmall, err_file_offset_bad, err_shdr_count_mismatch,
}
use readelfobj_code.Elf.{GenericShdr, ElfFiledata, InUse, dwarf_insert_in_use_entry}
use readelfobj_code.Elf.Sections.{Platform, header_of, generic_shdr_from, load_counted}
use readelfobj_code.ObjectRead.{Descriptor, IsFile, dwarf_object_read_random}
use readelfobj_code.ObjectRead.Ranges.{slice, take-slice, dwarf_object_read_random-slice}
use readelfobj_code.Elf.Sections.Table.{
  headers, length-headers, get_elem?-headers, shdr_loop_lem, insert_all, insert_all-fdoffset,
  insert_all-in_use, targets,
}

module _ (copysection : GenericShdr → List ℕ → GenericShdr) (size entsize : ℕ) where
  -- What is kept of `count` section headers in the file's `bytes` from `offset` on.
  pub record IsLoaded (bytes : List ℕ) (offset count align : ℕ) (entries : List InUse)
      (after : ElfFiledata) : Type 0 where
    pub has_count : length after.f_shdr ≡ count
    pub counted : after.f_loc_shdr.g_count ≡ count
    pub wide : size ≤ entsize
    pub inside : offset + entsize * count ≤ length bytes
    pub header :
        (i : ℕ)
        → i < count
        → get_elem? after.f_shdr i
          ≡ some (
              header_of copysection size after.f_fdoffset entsize i
                (slice bytes (offset + size * i) size))
    pub in_use :
        after.f_in_use
        ≡ entries
          ++ (targets after.f_shdr
              ++ record {
                u_offset = offset;
                u_align = align;
                u_length = entsize * count;
                u_lastbyte = offset + entsize * count;
              }
                ∷ [])

  module _ (given : Platform) (fd : Descriptor) (bytes : List ℕ) (file : IsFile fd bytes)
      (blocks : (n k : ℕ) (block : List ℕ) → given.calloc n k ≡ some block → length block ≡ n * k)
      (short : length bytes < 2 ^ 56) (ep : ElfFiledata) (is_fd : ep.f_fd ≡ fd)
      (is_size : ep.f_filesize ≡ length bytes) (offset count align : ℕ) where
    -- The state behind the loop over the headers of `filled`.
    abbrev kept : List ℕ → ElfFiledata
    kept filled =
        let start = record ep { f_fdoffset = given.lseek_cur offset } in
        let hs = headers copysection size entsize (given.lseek_cur offset) filled 0 0 count in
        record (insert_all start hs) {
          f_shdr = hs;
          f_loc_shdr = record {
            g_offset = offset;
            g_count = count;
            g_entrysize = size;
            g_totalsize = u64 (size * count);
          };
        }

    generic_shdr_from-ok :
        (block out : List ℕ)
        → given.calloc count entsize ≡ some block
        → given.has_room count ≡ true
        → dwarf_object_read_random ep.f_fd offset (u64 (count * entsize)) ep.f_filesize ≡ ok out
        → length out ≡ length block
        → size * count ≤ length out
        → generic_shdr_from copysection size given ep offset entsize count
          ≡ some (kept out, ok count)
    unfolding generic_shdr_from
    generic_shdr_from-ok block out c m r e h =
        let start = record ep { f_fdoffset = given.lseek_cur offset } in
        let looped = shdr_loop_lem copysection size entsize count start out 0 0 (omega arith) in
        rw (generic_shdr_from, c, m, r, store_all-whole block out e, looped) refl

    -- No answer leaves a block, and what `DW_DLV_OK` keeps.
    abbrev pub SafelyLoads : Option (ElfFiledata × Result (Unit {0})) → Type 0
    SafelyLoads answer =
        (r : ElfFiledata × Result (Unit {0})) × (answer ≡ some r)
        × (r.1 ≡ ok tt → IsLoaded bytes offset count align ep.f_in_use r.0)

    -- What reading the table may answer: a failure with some state, or the headers of the file.
    abbrev ReadAnswer : Option (ElfFiledata × Result ℕ) → Type 0
    ReadAnswer answer =
        ((after : ElfFiledata) × (answer ≡ some (after, no_entry)))
        ⊎ ((after : ElfFiledata) × (code : ErrCode) × (answer ≡ some (after, err code)))
        ⊎ ((out : List ℕ) × (answer ≡ some (kept out, ok count))
            × (out ≡ slice bytes offset (count * entsize)))

    generic_shdr_from-ReadAnswer :
        count * entsize < 2 ^ 64
        → size * count ≤ count * entsize
        → ReadAnswer (generic_shdr_from copysection size given ep offset entsize count)
    unfolding generic_shdr_from
    generic_shdr_from-ReadAnswer wide many = elim (Option-cases (given.calloc count entsize)) [
      | inl c ↦ inr (inl (ep, err_malloc, rw (generic_shdr_from, c) refl))
      | inr (block, c) ↦ elim (Bool-cases (given.has_room count)) [
        | inr m ↦ inr (inl (ep, err_malloc, rw (generic_shdr_from, c, m) refl))
        | inl m ↦
            let start = record ep { f_fdoffset = given.lseek_cur offset } in
            elim (Result-cases
              (dwarf_object_read_random ep.f_fd offset (u64 (count * entsize)) ep.f_filesize)) [
                | inl r ↦ inl (start, rw (generic_shdr_from, c, m, r) refl)
                | inr (inl (code, r)) ↦
                    inr (inl (start, code, rw (generic_shdr_from, c, m, r) refl))
                | inr (inr (out, r)) ↦
                    let whole : u64 (count * entsize) ≡ count * entsize = omega arith in
                    let file' : IsFile ep.f_fd bytes =
                      subst (λ d. IsFile d bytes) (sym is_fd) file in
                    let (s, n) =
                      dwarf_object_read_random-slice ep.f_fd bytes file' offset
                        (u64 (count * entsize)) ep.f_filesize out r in
                    let room = blocks count entsize block c in
                    inr (
                      inr (
                        out,
                        generic_shdr_from-ok block out c m r (n ∙ whole ∙ sym room)
                            (omega (arith, n, whole)),
                        s ∙ ap (slice bytes offset) whole,
                      ))
              ]
      ]
    ]

    part :
        (out : List ℕ)
        → out ≡ slice bytes offset (count * entsize)
        → (i : ℕ) → i < count
        → size * count ≤ count * entsize
        → take size (drop (0 + size * i) out) ≡ slice bytes (offset + size * i) size
    part out e i less many =
        ap (λ o. take size (drop (0 + size * i) o)) e
        ∙ ap (λ k. take size (drop k (slice bytes offset (count * entsize)))) (zero-add (size * i))
        ∙ take-slice bytes offset (count * entsize) size count i less many

    kept-IsLoaded :
        (out : List ℕ)
        → out ≡ slice bytes offset (count * entsize)
        → size ≤ entsize
        → size * count ≤ count * entsize
        → offset + count * entsize ≤ length bytes
        → IsLoaded bytes offset count align ep.f_in_use
            (dwarf_insert_in_use_entry (kept out) offset (u64 (entsize * count)) align)
    unfolding dwarf_insert_in_use_entry
    kept-IsLoaded out e wide many inside =
        let hs = headers copysection size entsize (given.lseek_cur offset) out 0 0 count in
        let start = record ep { f_fdoffset = given.lseek_cur offset } in
        let put : InUse = record {
          u_offset = offset;
          u_align = align;
          u_length = u64 (entsize * count);
          u_lastbyte = u64 (offset + u64 (entsize * count));
        } in
        let turned : u64 (entsize * count) ≡ entsize * count = omega arith in
        let ends : u64 (offset + u64 (entsize * count)) ≡ offset + entsize * count = omega arith in
        record {
          has_count =
              length-headers copysection size entsize (given.lseek_cur offset) out 0 0 count;
          counted = refl;
          wide = wide;
          inside = omega arith;
          header = λ i less.
              get_elem?-headers copysection size entsize (given.lseek_cur offset) out 0 0 count i
                less
              ∙ ap
                  (λ k. some (
                    header_of copysection size (given.lseek_cur offset) entsize k
                      (take size (drop (0 + size * i) out))))
                  (zero-add i)
              ∙ ap (λ t. some (header_of copysection size (given.lseek_cur offset) entsize i t))
                  (part out e i less many)
              ∙ ap
                  (λ f.
                    some (
                      header_of copysection size f entsize i
                        (slice bytes (offset + size * i) size)))
                  (sym (insert_all-fdoffset hs start));
          in_use =
              ap (λ l. l ++ put ∷ []) (insert_all-in_use hs start)
              ∙ append_assoc ep.f_in_use (targets hs) (put ∷ [])
              ∙ rw (ends, turned) refl;
        }

    -- With the guards passed.
    load_read :
        {answer : Option (ElfFiledata × Result (Unit {0}))}
        → size ≤ entsize
        → size * count ≤ count * entsize
        → offset + count * entsize ≤ length bytes
        → answer ≡ (
            generic_shdr_from copysection size given ep offset entsize count >>= λ (ep', res).
            elim res [
              | no_entry ↦ some (ep', no_entry)
              | err code ↦ some (ep', err code)
              | ok generic_count ↦ some (
                  if generic_count == count
                  then (dwarf_insert_in_use_entry ep' offset (u64 (entsize * count)) align, ok tt)
                  else (ep', err err_shdr_count_mismatch))
            ])
        → SafelyLoads answer
    load_read wide many inside e = elim (generic_shdr_from-ReadAnswer (omega arith) many) [
      | inl (after, r) ↦ ((after, no_entry), e ∙ rw r refl, λ q. absurd (no_entry-neq-ok q))
      | inr (inl (after, code, r)) ↦ ((after, err code), e ∙ rw r refl, λ q. absurd (err-neq-ok q))
      | inr (inr (out, r, s)) ↦
          let same : (count == count) ≡ true = ground arith in
          (
            (dwarf_insert_in_use_entry (kept out) offset (u64 (entsize * count)) align, ok tt),
            e ∙ rw (r, same) refl,
            λ q. kept-IsLoaded out s wide many inside,
          )
    ]

    pub load_counted-SafelyLoads :
        SafelyLoads (load_counted copysection size given ep offset entsize count align)
    unfolding load_counted
    load_counted-SafelyLoads =
        let bad =
          ltb ep.f_filesize offset
          || ltb 200 entsize
          || ltb ep.f_filesize count
          || ltb ep.f_filesize (u64 (count * entsize + offset)) in
        elim (Bool-cases (count == 0)) [
          | inl z ↦ ((ep, no_entry), rw z refl, λ q. absurd (no_entry-neq-ok q))
          | inr z ↦ elim (Bool-cases (ltb entsize size)) [
            | inl a ↦ ((ep, err err_toosmall), rw (z, a) refl, λ q. absurd (err-neq-ok q))
            | inr a ↦ elim (Bool-cases bad) [
              | inl b ↦
                  ((ep, err err_file_offset_bad), rw (z, a, b) refl, λ q. absurd (err-neq-ok q))
              | inr b ↦
                  let wide : size ≤ entsize = ground arith in
                  let few : count ≤ length bytes = ground arith in
                  let low : entsize ≤ 200 = ground arith in
                  let most = mul-le-mul few low in
                  let many : size * count ≤ count * entsize =
                    omega (arith, mul-le-mul_right count wide) in
                  let inside : offset + count * entsize ≤ length bytes = ground arith in
                  load_read wide many inside (rw (z, a, b) refl)
            ]
          ]
        ]

-- ===== src/Elf/Strings/Terminated.antt =====
-- The strings that src/dwarf_load_elf_headers.c hands out: each ends inside the block that it is in.
use readelfobj_code.Base.{
  ℕ, zero, suc, ◌+◌, ◌-◌, ◌^◌, ◌≤◌, ◌<◌, ◌≡◌, inl, inr, refl, sym, ap, ◌∙◌, arith, not, bit_and,
  true, false, Option, none, some, List, [], ◌∷◌, ◌++◌, length, take, drop, replicate, get_elem?,
  leb, ◌==◌, length-replicate, take-drop-take, drop-drop, Bool-cases, Option-cases,
}
use mathlib.Core.Path.{subst}
use mathlib.Core.Option.{some-injective}
use readelfobj_code.Base.Memory.{◌>>=◌, store_all, store_all-append, strlen}
use readelfobj_code.Base.Words.{u64}
use readelfobj_code.Bytes.{Host}
use readelfobj_code.Codes.{
  Result, ok, err, no_entry, err_not_stored, no_entry-neq-ok, err-neq-ok, Result-cases,
}
use readelfobj_code.Elf.{GenericShdr, ElfFiledata}
use readelfobj_code.Elf.Content.{decompressed}
use readelfobj_code.Elf.Decompress.{Library, is_there}
use readelfobj_code.Elf.Decompress.Sizes.{IsLibrary}
use readelfobj_code.Elf.Records.{read_at_offset}
use readelfobj_code.Elf.Strings.{drop_failed, dwarf_load_elf_symstr, dwarf_get_elf_symstr_string}
use readelfobj_code.ObjectRead.{IsFile, dwarf_object_read_random}
use readelfobj_code.ObjectRead.Ranges.{slice, dwarf_object_read_random-slice}

-- A string that starts before a NUL ends there or earlier.
strlen_found :
    (before : List ℕ) (index : ℕ)
    → index ≤ length before
    → (n : ℕ) × (strlen (drop index (before ++ 0 ∷ [])) ≡ some n) × (index + n ≤ length before)
unfolding strlen
strlen_found [] zero h = (0, refl, omega arith)
strlen_found [] (suc index) h = absurd (omega arith)
strlen_found (b ∷ before) zero h =
    let (n, e, less) = strlen_found before 0 (omega arith) in
    elim (Bool-cases (b == 0)) [
      | inl z ↦ (0, rw (strlen, z) refl, omega arith)
      | inr z ↦ (suc n, rw (strlen, z, e) refl, omega arith)
    ]
strlen_found (b ∷ before) (suc index) h =
    let (n, e, less) = strlen_found before index (omega arith) in (n, e, omega arith)

-- The content of a string section: the bytes of the file and a NUL.
abbrev pub HoldsStrings : List ℕ → GenericShdr → GenericShdr → Type 0
HoldsStrings bytes before after =
    (after.gh_content ≡ some (slice bytes before.gh_offset before.gh_size ++ 0 ∷ []))
    × (length (slice bytes before.gh_offset before.gh_size) ≡ before.gh_size)
    × (after.gh_size ≡ before.gh_size)
    × (after.gh_type ≡ before.gh_type)

zero_left : (n : ℕ) → drop {A = ℕ} n (replicate (suc n) 0) ≡ 0 ∷ []
zero_left zero = refl
zero_left (suc n) = zero_left n

-- Bytes in a zeroed block with one more keep a NUL behind them.
stored_before_nul :
    (got : List ℕ) (size : ℕ)
    → length got ≡ size
    → store_all (replicate (size + 1) 0) 0 got ≡ some (got ++ 0 ∷ [])
stored_before_nul got size n =
    let one_more : size + 1 ≡ suc (length got) = omega arith in
    let room : length got ≤ length (replicate (suc (length got)) 0) =
      omega (arith, length-replicate {A = ℕ} (suc (length got)) 0) in
    rw one_more (
      store_all-append got [] (replicate (suc (length got)) 0) 0 refl room
      ∙ ap (λ r. some (got ++ r)) (zero_left (length got)))

module _ (host : Host) (lib : Library) (laws : IsLibrary lib) (ep : ElfFiledata) (bytes : List ℕ)
    (file : IsFile ep.f_fd bytes) (short : length bytes < 2 ^ 56) (psh : GenericShdr)
    (unread : psh.gh_content ≡ none) (plain : bit_and psh.gh_flags 0x800 ≡ 0)
    (low : psh.gh_size < 2 ^ 64 - 1) where
  -- Without a fault, and the strings when it succeeds.
  abbrev pub LoadsStrings : Option (GenericShdr × Result (Unit {0})) → Type 0
  LoadsStrings answer =
      (r : GenericShdr × Result (Unit {0})) × (answer ≡ some r)
      × (r.1 ≡ ok tt → HoldsStrings bytes psh r.0)

  with_strings :
      (block : List ℕ)
      → lib.calloc (u64 (psh.gh_size + 1)) ≡ some block
      → LoadsStrings (
          read_at_offset ep block psh.gh_offset psh.gh_size >>= λ answer. elim answer [
            | no_entry ↦ some (psh, no_entry)
            | err code ↦ some (psh, err code)
            | ok filled ↦
                decompressed host lib ep (record psh { gh_content = some filled }) >>= drop_failed
          ])
  unfolding read_at_offset decompressed
  with_strings block c =
      elim (Result-cases
        (dwarf_object_read_random ep.f_fd psh.gh_offset psh.gh_size ep.f_filesize)) [
          | inl r ↦ ((psh, no_entry), rw (read_at_offset, r) refl, λ q. absurd (no_entry-neq-ok q))
          | inr (inl (code, r)) ↦
              ((psh, err code), rw (read_at_offset, r) refl, λ q. absurd (err-neq-ok q))
          | inr (inr (got, r)) ↦
              let (s, n) =
                dwarf_object_read_random-slice ep.f_fd bytes file psh.gh_offset psh.gh_size
                  ep.f_filesize got r in
              let room : u64 (psh.gh_size + 1) ≡ psh.gh_size + 1 = omega arith in
              let zeros : block ≡ replicate (psh.gh_size + 1) 0 =
                laws.zeroed (u64 (psh.gh_size + 1)) block c ∙ ap (λ k. replicate k 0) room in
              let stored : store_all block 0 got ≡ some (got ++ 0 ∷ []) =
                ap (λ b. store_all b 0 got) zeros ∙ stored_before_nul got psh.gh_size n in
              let flag : (bit_and psh.gh_flags 0x800 == 0) ≡ true = ground arith in
              (
                (record psh { gh_content = some (got ++ 0 ∷ []) }, ok tt),
                rw (read_at_offset, r, stored, decompressed, flag) refl,
                λ q. (ap (λ g. some (g ++ 0 ∷ [])) s, ap length (sym s) ∙ n, refl, refl),
              )
        ]

  pub dwarf_load_elf_symstr-LoadsStrings : LoadsStrings (dwarf_load_elf_symstr host lib ep psh)
  unfolding dwarf_load_elf_symstr
  dwarf_load_elf_symstr-LoadsStrings =
      let null : is_there psh.gh_content ≡ false = ap is_there unread in
      elim (Option-cases (lib.calloc (u64 (psh.gh_size + 1)))) [
        | inl c ↦ (
          (record psh { gh_size = 0 }, err err_not_stored),
          rw (dwarf_load_elf_symstr, null, c) refl,
          λ q. absurd (err-neq-ok q),
        )
        | inr (block, c) ↦
            let (r, e, holds) = with_strings block c in
            (r, rw (dwarf_load_elf_symstr, null, c) e, holds)
      ]

take-drop-append :
    (n index : ℕ) (out behind : List ℕ)
    → index + n ≤ length out
    → take n (drop index (out ++ behind)) ≡ take n (drop index out)
take-drop-append zero index out behind h = refl
take-drop-append (suc n) zero [] behind h = absurd (omega arith)
take-drop-append (suc n) zero (o ∷ out) behind h =
    ap (◌∷◌ o) (take-drop-append n 0 out behind (omega arith))
take-drop-append (suc n) (suc index) [] behind h = absurd (omega arith)
take-drop-append (suc n) (suc index) (o ∷ out) behind h =
    take-drop-append (suc n) index out behind (omega arith)

-- The string that starts at `index` of a string section: a NUL ends it in the block, and its
-- characters are the file's.
abbrev pub IsString : List ℕ → GenericShdr → ℕ → Option (Result (Option (List ℕ) × ℕ)) → Type 0
IsString bytes psh index answer =
    (content : List ℕ) × (n : ℕ) × (answer ≡ some (ok (some content, index)))
    × (strlen (drop index content) ≡ some n)
    × (index + n ≤ psh.gh_size)
    × (take n (drop index content) ≡ slice bytes (psh.gh_offset + index) n)

-- Let `dwarf_load_elf_symstr` load a string section of type `SHT_STRTAB`, 3, that is not compressed
-- and not yet read, and whose size is not the largest word, from a file below 2^56 bytes. Once the
-- section stands at `link` in the table, `dwarf_get_elf_symstr_string` gives every index below the
-- section's size as a string whose NUL lies inside the block, and whose characters are the bytes of
-- the file at that place, even if the section in the file does not end in a NUL.
pub dwarf_get_elf_symstr_string-IsString :
    (host : Host) (lib : Library) (laws : IsLibrary lib) (ep : ElfFiledata) (bytes : List ℕ)
    (file : IsFile ep.f_fd bytes) (short : length bytes < 2 ^ 56) (psh loaded : GenericShdr)
    → psh.gh_content ≡ none
    → bit_and psh.gh_flags 0x800 ≡ 0
    → psh.gh_size < 2 ^ 64 - 1
    → psh.gh_type ≡ 3
    → dwarf_load_elf_symstr host lib ep psh ≡ some (loaded, ok tt)
    → (after : ElfFiledata) (link index : ℕ) → link < after.f_ehdr.ge_shnum
    → get_elem? after.f_shdr link ≡ some loaded
    → index < psh.gh_size
    → IsString bytes psh index (dwarf_get_elf_symstr_string after link index)
unfolding dwarf_get_elf_symstr_string
dwarf_get_elf_symstr_string-IsString host lib laws ep bytes file short psh loaded unread plain low
      strtab done after link index few found inside =
    let (r, e, holds) =
      dwarf_load_elf_symstr-LoadsStrings host lib laws ep bytes file short psh unread plain low in
    let same : r ≡ (loaded, ok tt) = some-injective r (loaded, ok tt) (sym e ∙ done) in
    let (content, size, sized, type) =
      subst (λ s. HoldsStrings bytes psh s) (ap (λ s. s.0) same) (holds (ap (λ s. s.1) same)) in
    let out = slice bytes psh.gh_offset psh.gh_size in
    let (n, ends, fits) = strlen_found out index (omega arith) in
    let link_ok : leb after.f_ehdr.ge_shnum link ≡ false = ground arith in
    let type_ok : not (loaded.gh_type == 3) ≡ false = ground arith in
    let index_ok : leb loaded.gh_size index ≡ false = ground arith in
    (
      out ++ 0 ∷ [],
      n,
      rw (dwarf_get_elf_symstr_string, link_ok, found, type_ok, index_ok)
          (ap (λ c. some (ok (c, index))) content),
      ends,
      omega arith,
      take-drop-append n index out (0 ∷ []) fits
          ∙ take-drop-take n index psh.gh_size (drop psh.gh_offset bytes) (omega arith)
          ∙ ap (take n) (drop-drop index psh.gh_offset bytes),
    )

-- ===== src/Elf/Decompress/Sizes.antt =====
-- What src/dwarf_elf_decompress.c leaves in a section, given what zlib, zstd and malloc promise.
use readelfobj_code.Base.{
  ℕ, ◌+◌, ◌-◌, ◌*◌, ◌/◌, ◌^◌, ◌≤◌, ◌<◌, ◌≡◌, ◌⊎◌, inl, inr, refl, sym, ap, ◌∙◌, arith, ◌||◌,
  bit_and, Bool, true, false, Option, some, List, [], ◌++◌, length, take, drop, replicate, ltb,
  ◌==◌, length-drop, length-append, Bool-cases, Option-cases,
}
use readelfobj_code.Base.Memory.{store_all, store_all-append}
use readelfobj_code.Base.Text.{codes}
use readelfobj_code.Base.Words.{u64}
use readelfobj_code.Bytes.{Host, WordSwap, asnar, big_value_from}
use readelfobj_code.Codes.{
  Result, ok, err, no_entry, ok-injective, err_not_stored, alloc_fail, zdebug_input_format_odd,
  zlib_buf_error, zlib_data_error, zlib_section_short, no_entry-neq-ok, err-neq-ok, Result-cases,
}
use readelfobj_code.Elf.{GenericShdr, ElfFiledata}
use readelfobj_code.Elf.Flags.{same_start}
use readelfobj_code.Elf.Decompress.{
  Uncompressed, z_ok, z_buf_error, z_mem_error, z_other_error, Library, asnarlraw, compressed_part,
  inflate, replace_content, bytes_at, dwarf_elf_do_decompress,
}

-- What the manuals promise: `calloc` gives zeroed blocks of the size that is asked for, `malloc` gives
-- blocks of that size, and a decompressor stores no more than it has room for.
pub record IsLibrary (lib : Library) : Type 0 where
  pub zeroed : (n : ℕ) (block : List ℕ) → lib.calloc n ≡ some block → block ≡ replicate n 0
  pub sized : (n : ℕ) (block : List ℕ) → lib.malloc n ≡ some block → length block ≡ n
  pub inflated :
      (src : List ℕ) (room : ℕ) (out : List ℕ)
      → lib.uncompress src room ≡ z_ok out
      → length out ≤ room
  pub inflated_zstd : (src : List ℕ) (room : ℕ) → length (lib.zstd_decompress src room).0 ≤ room

-- Without a fault, and with `size` bytes where there are any.
abbrev Fills : ℕ → Option (Result (List ℕ)) → Type 0
Fills size answer =
    (r : Result (List ℕ)) × (answer ≡ some r) × ((out : List ℕ) → r ≡ ok out → length out ≡ size)

Uncompressed-cases :
    (u : Uncompressed)
    → ((out : List ℕ) × (u ≡ z_ok out))
      ⊎ (u ≡ z_buf_error)
      ⊎ (u ≡ z_mem_error)
      ⊎ (u ≡ z_other_error)
Uncompressed-cases (z_ok out) = inl (out, refl)
Uncompressed-cases z_buf_error = inr (inl refl)
Uncompressed-cases z_mem_error = inr (inr (inl refl))
Uncompressed-cases z_other_error = inr (inr (inr refl))

-- Bytes at the start of a block that has room for them leave its size.
stored_start :
    (dest out : List ℕ)
    → length out ≤ length dest
    → (filled : List ℕ) × (store_all dest 0 out ≡ some filled) × (length filled ≡ length dest)
stored_start dest out fits = (
  out ++ drop (length out) dest,
  store_all-append out [] dest 0 refl fits,
  omega (arith, length-append out (drop (length out) dest), length-drop (length out) dest),
)

-- Where the part behind the header ends.
abbrev ends_at : ℕ × ℕ × ℕ × Bool → ℕ
ends_at (start, srclen, destlen, zstd) = start + srclen

asnarlraw_lem :
    (host : Host) (copy : WordSwap) (mem : List ℕ) (l : ℕ)
    → l ≤ 8
    → l ≤ length mem
    → asnarlraw host copy mem l ≡ some (asnar host copy (take l mem))
unfolding asnarlraw
asnarlraw_lem host copy mem l few inside =
    let low : (ltb 8 l || ltb (length mem) l) ≡ false = ground arith in rw (asnarlraw, low) refl

module _ (lib : Library) (laws : IsLibrary lib) where
  inflate-Fills :
      (src : List ℕ) (destlen : ℕ) (zstd : Bool) (dest : List ℕ)
      → length dest ≡ destlen
      → Fills destlen (inflate lib src destlen zstd dest)
  unfolding inflate
  inflate-Fills src destlen true dest n =
      let out = (lib.zstd_decompress src destlen).0 in
      let zsize = (lib.zstd_decompress src destlen).1 in
      let (filled, e, m) = stored_start dest out (omega (arith, laws.inflated_zstd src destlen)) in
      elim (Bool-cases (zsize == destlen)) [
        | inl z ↦
            (ok filled, rw (inflate, e, z) refl, λ out' q. ap length (sym (ok-injective q)) ∙ m ∙ n)
        | inr z ↦ (err zlib_data_error, rw (inflate, e, z) refl, λ out' q. absurd (err-neq-ok q))
      ]
  inflate-Fills src destlen false dest n = elim (Uncompressed-cases (lib.uncompress src destlen)) [
    | inl (out, u) ↦
        let (filled, e, m) =
          stored_start dest out (omega (arith, laws.inflated src destlen out u)) in
        (ok filled, rw (inflate, u, e) refl, λ out' q. ap length (sym (ok-injective q)) ∙ m ∙ n)
    | inr (inl u) ↦ (err zlib_buf_error, rw (inflate, u) refl, λ out' q. absurd (err-neq-ok q))
    | inr (inr (inl u)) ↦ (err alloc_fail, rw (inflate, u) refl, λ out' q. absurd (err-neq-ok q))
    | inr (inr (inr u)) ↦
        (err zlib_data_error, rw (inflate, u) refl, λ out' q. absurd (err-neq-ok q))
  ]

  -- No answer leaves a block, and a section that is decompressed has as many bytes as it says.
  abbrev pub Replaces : GenericShdr → Option (GenericShdr × Result (Unit {0})) → Type 0
  Replaces psh answer =
      (r : GenericShdr × Result (Unit {0})) × (answer ≡ some r)
      × (r.1 ≡ ok tt
          → (out : List ℕ) × (r.0.gh_content ≡ some out)
            × (length out ≡ r.0.gh_size)
            × (r.0.gh_compressed_len ≤ psh.gh_size))

  replace_content-Replaces :
      (psh : GenericShdr) (content : List ℕ)
      → length content ≡ psh.gh_size
      → psh.gh_size < 2 ^ 64
      → (found : ℕ × ℕ × ℕ × Bool) → ends_at found ≡ psh.gh_size
      → Replaces psh (replace_content lib psh content found)
  unfolding replace_content
  replace_content-Replaces psh content n wide (start, srclen, destlen, zstd) ends =
      let all : ltb psh.gh_size (u64 (start + srclen)) ≡ false = ground arith in
      let inside : ltb (length content) (start + srclen) ≡ false = ground arith in
      elim (Option-cases (lib.malloc destlen)) [
        | inl m ↦ (
          (psh, err err_not_stored),
          rw (replace_content, all, m) refl,
          λ q. absurd (err-neq-ok q),
        )
        | inr (dest, m) ↦
            let (r, e, fills) =
              inflate-Fills (take srclen (drop start content)) destlen zstd dest
                (laws.sized destlen dest m) in
            elim (Result-cases r) [
              | inl q ↦ (
                (psh, no_entry),
                rw (replace_content, all, m, inside, e, q) refl,
                λ o. absurd (no_entry-neq-ok o),
              )
              | inr (inl (code, q)) ↦ (
                (psh, err code),
                rw (replace_content, all, m, inside, e, q) refl,
                λ o. absurd (err-neq-ok o),
              )
              | inr (inr (filled, q)) ↦ (
                (
                  record psh {
                    gh_content = some filled;
                    gh_size = destlen;
                    gh_compressed_len = srclen;
                  },
                  ok tt,
                ),
                rw (replace_content, all, m, inside, e, q) refl,
                λ o. (filled, refl, fills filled q, omega arith),
              )
            ]
      ]

-- The part that is found ends with the section.
abbrev pub EndsInside : ℕ → Option (Result (ℕ × ℕ × ℕ × Bool)) → Type 0
EndsInside size answer =
    (r : Result (ℕ × ℕ × ℕ × Bool)) × (answer ≡ some r)
    × ((found : ℕ × ℕ × ℕ × Bool) → r ≡ ok found → ends_at found ≡ size)

compressed_part-EndsInside :
    (host : Host) (ep : ElfFiledata) (psh : GenericShdr) (src : List ℕ)
    → length src ≡ psh.gh_size
    → psh.gh_size < 2 ^ 64
    → ep.f_pointersize / 8 ≤ 8
    → 3 * (ep.f_pointersize / 8) ≤ psh.gh_size
    → EndsInside psh.gh_size (compressed_part host ep psh src)
unfolding compressed_part
compressed_part-EndsInside host ep psh src n wide few header =
    let fld = ep.f_pointersize / 8 in
    elim (Bool-cases (ltb psh.gh_size 12)) [
      | inl s ↦ (err zlib_section_short, rw (compressed_part, s) refl, λ f q. absurd (err-neq-ok q))
      | inr s ↦
          let long : ltb (length src) 12 ≡ false = ground arith in
          elim (Bool-cases (same_start (codes "ZLIB") src 4)) [
            | inl z ↦ (
              ok (12, psh.gh_size - 12, big_value_from 0 (take 8 (drop 4 src)), false),
              rw (compressed_part, s, long, z) refl,
              λ f q. ap ends_at (sym (ok-injective q)) ∙ ground arith,
            )
            | inr z ↦ elim (Bool-cases (bit_and psh.gh_flags 0x800 == 0)) [
              | inl c ↦ (
                err zdebug_input_format_odd,
                rw (compressed_part, s, long, z, c) refl,
                λ f q. absurd (err-neq-ok q),
              )
              | inr c ↦
                  let type = asnarlraw_lem host ep.f_copy_word src 4 (omega arith) (ground arith) in
                  let size =
                    asnarlraw_lem host ep.f_copy_word (drop fld src) fld few
                      (omega (arith, length-drop fld src)) in
                  let t = asnar host ep.f_copy_word (take 4 src) in
                  let rest : 3 * fld + u64 (psh.gh_size + 2 ^ 64 - 3 * fld) ≡ psh.gh_size =
                    omega arith in
                  elim (Bool-cases ((t == 1) || (t == 2))) [
                    | inl k ↦ (
                      ok (
                        3 * fld,
                        u64 (psh.gh_size + 2 ^ 64 - 3 * fld),
                        asnar host ep.f_copy_word (take fld (drop fld src)),
                        t == 2,
                      ),
                      rw (compressed_part, s, long, z, c, type, size, k) refl,
                      λ f q. ap ends_at (sym (ok-injective q)) ∙ rest,
                    )
                    | inr k ↦ (
                      err zdebug_input_format_odd,
                      rw (compressed_part, s, long, z, c, type, size, k) refl,
                      λ f q. absurd (err-neq-ok q),
                    )
                  ]
            ]
          ]
    ]

-- Let a section have `gh_size` bytes in `gh_content`, no fewer than the header of a compressed section
-- takes, and let zlib, zstd and the allocators do what they promise. Then `dwarf_elf_do_decompress`
-- never leaves a block, and when it returns `DW_DLV_OK` the section has exactly as many bytes as its
-- new `gh_size` says, and no more of them were compressed than the section had.
pub dwarf_elf_do_decompress-Replaces :
    (host : Host) (lib : Library) (laws : IsLibrary lib) (ep : ElfFiledata) (psh : GenericShdr)
    (content : List ℕ)
    → psh.gh_content ≡ some content
    → length content ≡ psh.gh_size
    → psh.gh_size < 2 ^ 64
    → ep.f_pointersize / 8 ≤ 8
    → 3 * (ep.f_pointersize / 8) ≤ psh.gh_size
    → Replaces lib laws psh (dwarf_elf_do_decompress host lib ep psh)
unfolding dwarf_elf_do_decompress
dwarf_elf_do_decompress-Replaces host lib laws ep psh content has n wide few header =
    let there : bytes_at psh.gh_content ≡ content = ap bytes_at has in
    let (r, e, ends) = compressed_part-EndsInside host ep psh content n wide few header in
    elim (Result-cases r) [
      | inl q ↦ (
        (psh, no_entry),
        rw (dwarf_elf_do_decompress, there, e, q) refl,
        λ o. absurd (no_entry-neq-ok o),
      )
      | inr (inl (code, q)) ↦ (
        (psh, err code),
        rw (dwarf_elf_do_decompress, there, e, q) refl,
        λ o. absurd (err-neq-ok o),
      )
      | inr (inr (found, q)) ↦
          let (r', e', done) =
            replace_content-Replaces lib laws psh content n wide found (ends found q) in
          (
            r',
            rw (dwarf_elf_do_decompress, there, e, q)
                (ap (λ c. replace_content lib psh c found) there ∙ e'),
            done,
          )
    ]

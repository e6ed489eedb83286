-- ===== src/Elf/Content/Read.antt =====
-- A section that is not compressed, as src/dwarf_load_elf_headers.c reads it.
use readelfobj_code.Base.{
  ℕ, ◌≤◌, ◌≡◌, ◌⊎◌, inl, inr, refl, arith, bit_and, true, Option, none, some, List, length, ◌==◌,
}
use readelfobj_code.Bytes.{Host}
use readelfobj_code.Codes.{Result, err, no_entry, ErrCode, err_malloc, Result-cases}
use readelfobj_code.Elf.{GenericShdr, ElfFiledata}
use readelfobj_code.Elf.Content.{decompressed, with_block, with_content}
use readelfobj_code.Elf.Decompress.{Library}
use readelfobj_code.Elf.Records.{read_at_offset_lem}
use readelfobj_code.ObjectRead.{IsFile}
use readelfobj_code.ObjectRead.Ranges.{slice}

module _ {A : Type 0} (host : Host) (lib : Library) (ep : ElfFiledata) (bytes : List ℕ)
    (file : IsFile ep.f_fd bytes) (psh : GenericShdr) (plain : bit_and psh.gh_flags 0x800 ≡ 0)
    (keep : GenericShdr → Option (GenericShdr × Result A)) where
  -- A failure that leaves the section, or `keep` with the section's bytes.
  abbrev pub ReadCases : Option (GenericShdr × Result A) → Type 0
  ReadCases answer =
      (answer ≡ some (psh, no_entry))
      ⊎ ((code : ErrCode) × (answer ≡ some (psh, err code)))
      ⊎ ((out : List ℕ) × (answer ≡ keep (record psh { gh_content = some out }))
          × (out ≡ slice bytes psh.gh_offset psh.gh_size)
          × (length out ≡ psh.gh_size))

  pub with_block-ReadCases :
      (block : List ℕ)
      → (psh.gh_size ≤ length bytes → length block ≡ psh.gh_size)
      → ReadCases (with_block host lib ep psh block keep)
  unfolding with_block
  with_block-ReadCases block room =
      let (answer, e, holds) =
        read_at_offset_lem ep bytes file block psh.gh_offset psh.gh_size room in
      elim (Result-cases answer) [
        | inl q ↦ inl (rw (with_block, e, q) refl)
        | inr (inl (code, q)) ↦ inr (inl (code, rw (with_block, e, q) refl))
        | inr (inr (out, q)) ↦
            let (s, n) = holds out q in
            let flag : (bit_and psh.gh_flags 0x800 == 0) ≡ true = ground arith in
            inr (inr (out, rw (with_block, e, q, decompressed, flag) refl, s, n))
      ]

  pub with_content-ReadCases :
      (block : Option (List ℕ))
      → ((b : List ℕ) → block ≡ some b → psh.gh_size ≤ length bytes → length b ≡ psh.gh_size)
      → ReadCases (with_content host lib ep psh block keep)
  unfolding with_content
  with_content-ReadCases none room = inr (inl (err_malloc, refl))
  with_content-ReadCases (some b) room = with_block-ReadCases b (room b refl)

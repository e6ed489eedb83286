-- ===== src/Elf/Records.antt =====
-- Arrays of structures in src/dwarf_load_elf_headers.c: a block read from the file, and the loop over
-- its structures that makes the generic ones.
use readelfobj_code.Base.{
  ℕ, zero, suc, ◌+◌, ◌*◌, ◌≤◌, ◌<◌, ◌≡◌, refl, sym, ap, ◌∙◌, arith, inl, inr, true, Option, some,
  List, [], ◌∷◌, length, take, drop, get_elem?, leb, length-drop, drop-drop,
}
use native.Mathlib.Nat.{mul-suc, mul-zero}
use readelfobj_code.Base.Memory.{◌>>=◌, next_element, store_all, store_all-whole}
use readelfobj_code.Codes.{
  Result, ok, err, no_entry, no_entry-neq-ok, err-neq-ok, ok-injective, Result-cases,
}
use readelfobj_code.Elf.{ElfFiledata}
use readelfobj_code.Elf.Sections.{struct_at}
use readelfobj_code.ObjectRead.{IsFile, dwarf_object_read_random}
use readelfobj_code.ObjectRead.Ranges.{slice, length-slice, dwarf_object_read_random-slice}

-- `RRMOA` with `block` for the bytes that are read.
unfoldable pub read_at_offset : ElfFiledata → List ℕ → ℕ → ℕ → Option (Result (List ℕ))
read_at_offset ep block offset size =
    elim (dwarf_object_read_random ep.f_fd offset size ep.f_filesize) [
      | no_entry ↦ some no_entry
      | err code ↦ some (err code)
      | ok bytes ↦ store_all block 0 bytes >>= λ filled. some (ok filled)
    ]

-- The rounds of `for (i = 0; i < ecount; ++i,++p,++g)` that are left, with `p` at `mem`, and `room`
-- elements of the generic array from `g` on.
unfoldable pub record_loop {ℓ} : {A : Type ℓ} → (List ℕ → A) → ℕ → ℕ → List ℕ → ℕ → Option (List A)
record_loop entry size room mem zero = some []
record_loop entry size room mem (suc rounds) = struct_at size mem >>= λ s.
    next_element room >>= λ left.
    record_loop entry size left (drop size mem) rounds >>= λ rest. some (entry s ∷ rest)

-- What is read of a file is the part that was asked for, in a block of its size.
pub read_at_offset_lem :
    (ep : ElfFiledata) (bytes : List ℕ) (file : IsFile ep.f_fd bytes) (block : List ℕ)
    (offset size : ℕ)
    → (size ≤ length bytes → length block ≡ size)
    → (answer : Result (List ℕ)) × (read_at_offset ep block offset size ≡ some answer)
      × ((out : List ℕ) → answer ≡ ok out → (out ≡ slice bytes offset size) × (length out ≡ size))
unfolding read_at_offset
read_at_offset_lem ep bytes file block offset size room =
    elim (Result-cases (dwarf_object_read_random ep.f_fd offset size ep.f_filesize)) [
      | inl r ↦ (no_entry, rw (read_at_offset, r) refl, λ out e. absurd (no_entry-neq-ok e))
      | inr (inl (code, r)) ↦
          (err code, rw (read_at_offset, r) refl, λ out e. absurd (err-neq-ok e))
      | inr (inr (got, r)) ↦
          let (s, n) =
            dwarf_object_read_random-slice ep.f_fd bytes file offset size ep.f_filesize got r in
          let inside : size ≤ length bytes =
            omega (arith, ap length s, n, length-slice bytes offset size) in
          let stored = store_all-whole block got (n ∙ sym (room inside)) in
          (
            ok got,
            rw (read_at_offset, r, stored) refl,
            λ out e. let same = ok-injective e in (sym same ∙ s, ap length (sym same) ∙ n),
          )
    ]

-- The entries of a block.
abbrev pub HasEntries {ℓ} : {A : Type ℓ} → (List ℕ → A) → ℕ → List ℕ → ℕ → List A → Type ℓ
HasEntries entry size mem count entries =
    (length entries ≡ count)
    × ((i : ℕ) → i < count → get_elem? entries i ≡ some (entry (slice mem (size * i) size)))

entries_behind {ℓ} :
    {A : Type ℓ} (entry : List ℕ → A) (size count : ℕ) (mem : List ℕ) (rest : List A)
    → ((i : ℕ)
        → i < count
        → get_elem? rest i ≡ some (entry (slice (drop size mem) (size * i) size)))
    → (i : ℕ) → i < suc count
    → get_elem? (entry (take size mem) ∷ rest) i ≡ some (entry (slice mem (size * i) size))
entries_behind entry size count mem rest each zero less =
    ap (λ k. some (entry (take size (drop k mem)))) (sym (mul-zero size))
entries_behind entry size count mem rest each (suc j) less =
    let place : size + size * j ≡ size * suc j = omega (arith, mul-suc size j) in
    each j (omega arith)
    ∙ ap (λ m. some (entry (take size m)))
        (drop-drop (size * j) size mem ∙ ap (λ k. drop k mem) place)

pub record_loop-HasEntries {ℓ} :
    {A : Type ℓ} (entry : List ℕ → A) (size count : ℕ) (mem : List ℕ)
    → size * count ≤ length mem
    → (entries : List A) × (record_loop entry size count mem count ≡ some entries)
      × HasEntries entry size mem count entries
unfolding record_loop
record_loop-HasEntries entry size zero mem h = ([], refl, (refl, λ i less. absurd (omega arith)))
record_loop-HasEntries entry size (suc count) mem h =
    let first : leb size (length mem) ≡ true = ground (arith, mul-suc size count) in
    let (rest, e, (n, each)) =
      record_loop-HasEntries entry size count (drop size mem)
        (omega (arith, length-drop size mem, mul-suc size count)) in
    (
      entry (take size mem) ∷ rest,
      rw (first, e) refl,
      (ap suc n, entries_behind entry size count mem rest each),
    )

-- Entries that fill a block lie inside it.
pub entries_fit : (all size n : ℕ) → all ≡ size → n ≡ size → all ≤ n
entries_fit all size n whole has = omega arith

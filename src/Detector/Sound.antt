-- ===== src/Detector/Sound.antt =====
-- `dwarf_object_detector_fd_a` and `dwarf_object_detector_fd` of src/dwarf_object_detector.c against
-- the signatures.
use readelfobj_code.Base.{
  ℕ, ◌+◌, ◌≤◌, ◌<◌, ◌≡◌, ◌∙◌, ap, sym, refl, ◌↔◌, ◌⊎◌, inl, inr, arith, true, false, List, [], ◌∷◌,
  take, drop, length, All, none, take-take, All-take, All-drop, Bool-cases, Option-cases,
}
use mathlib.Core.Path.{subst, subst₂}
use readelfobj_code.Base.Words.{IsByte}
use readelfobj_code.Bytes.{Host}
use readelfobj_code.Codes.{ok, >>=-eq-ok, ok-injective}
use readelfobj_code.Detector.{
  Endian, FileType, ftype_unknown, ftype_elf, ftype_mach_o, ftype_pe, ftype_archive,
  ftype_appleuniversal, Detected, detected, fill_in_elf_fields, is_elf_ident, is_mach_o_magic,
  is_mach_o_universal, is_archive_magic, is_pe_object, classify_header, dwarf_object_detector_fd_a,
  dwarf_object_detector_fd,
}
use readelfobj_code.Detector.Magic.{
  is_mach_o_magic_iff, is_mach_o_universal_iff, is_archive_magic_iff, fill_in_elf_fields_iff,
}
use readelfobj_code.Detector.Pe.{is_pe_object_iff}
use readelfobj_code.Detector.Signature.{Describes}
use readelfobj_code.ObjectRead.{Descriptor, IsFile}
use readelfobj_code.ObjectRead.Ranges.{slice, length-slice}
use readelfobj_code.Detector.FirstByte.{
  not_elf, not_archive, mach_byte, fat_byte, dos_byte, not_universal, not_mach,
}

module _ (host : Host) (fd : Descriptor) (bytes : List ℕ) (e0 : Endian) (size0 : ℕ)
    (file : IsFile fd bytes) (hb : All IsByte bytes) where
  -- What a result says of a header `h`.
  abbrev Fits : List ℕ → Detected → Type 0
  Fits h d = (d.filesize ≡ length bytes) × Describes bytes h e0 size0 d d.ftype

  Fits-of :
      (h : List ℕ) (ftype : FileType) (p : Endian × ℕ) {d : Detected}
      → ok (detected ftype (length bytes) p) ≡ ok d
      → Describes bytes h e0 size0 (detected ftype (length bytes) p) ftype
      → Fits h d
  Fits-of h ftype (e, size) q t = subst (Fits h) (ok-injective q) (refl, t)

  classify_elf :
      (h : List ℕ) {d : Detected}
      → 4 ≤ length h
      → is_elf_ident h ≡ true
      → classify_header host fd e0 size0 h (length bytes) ≡ ok d
      → Fits h d
  unfolding classify_header
  classify_elf h n i q =
      let ((e, size), f, g) = >>=-eq-ok (fill_in_elf_fields h) _ (rw i at q) in
      Fits-of h ftype_elf (e, size) g ((fill_in_elf_fields_iff h e size n).0 (i, f))

  classify_last :
      (h : List ℕ) {d : Detected}
      → 4 ≤ length h
      → is_elf_ident h ≡ false
      → is_mach_o_universal h ≡ none
      → is_mach_o_magic h ≡ none
      → classify_header host fd e0 size0 h (length bytes) ≡ ok d
      → Fits h d
  unfolding classify_header
  classify_last h n i u m q = elim (Bool-cases (is_archive_magic h)) [
    | inl a ↦
        Fits-of h ftype_archive (e0, size0) (rw (i, u, m, a) at q)
          ((is_archive_magic_iff h).0 a, refl, refl)
    | inr a ↦
        let ((e, size), f, g) =
          >>=-eq-ok (is_pe_object host fd (length bytes)) _ (rw (i, u, m, a) at q) in
        Fits-of h ftype_pe (e, size) g ((is_pe_object_iff fd bytes file hb host e size).0 f)
  ]

  classify-Fits :
      (h : List ℕ) {d : Detected}
      → 4 ≤ length h
      → All IsByte h
      → classify_header host fd e0 size0 h (length bytes) ≡ ok d
      → Fits h d
  unfolding classify_header
  classify-Fits h n b q = elim (Bool-cases (is_elf_ident h)) [
    | inl i ↦ classify_elf h n i q
    | inr i ↦ elim (Option-cases (is_mach_o_universal h)) [
      | inr ((e, size), u) ↦
          Fits-of h ftype_appleuniversal (e, size) (rw (i, u) at q)
            ((is_mach_o_universal_iff h e size n b).0 u)
      | inl u ↦ elim (Option-cases (is_mach_o_magic h)) [
        | inr ((e, size), m) ↦
            Fits-of h ftype_mach_o (e, size) (rw (i, u, m) at q)
              ((is_mach_o_magic_iff h e size n b).0 m)
        | inl m ↦ classify_last h n i u m q
      ]
    ]
  ]

  detector_long :
      (base : ℕ)
      → base + 24 < length bytes
      → dwarf_object_detector_fd_a host fd e0 size0 base
        ≡ classify_header host fd e0 size0 (slice bytes base 24) (length bytes)
  unfolding dwarf_object_detector_fd_a
  detector_long base h =
      let n = length-slice bytes base 24 in
      let s = file.seeks base (omega (arith, file.end_signed)) in
      let r = file.reads_all base 24 (omega arith) (omega arith) in
      ground (arith, file.end_at, file.end_signed)

  detector_short :
      (base : ℕ) {d : Detected}
      → dwarf_object_detector_fd_a host fd e0 size0 base ≡ ok d
      → base + 24 < length bytes
  unfolding dwarf_object_detector_fd_a
  detector_short base h = ground (arith, file.end_at, file.end_signed)

module _ (host : Host) (fd : Descriptor) (bytes : List ℕ) (e0 : Endian) (size0 : ℕ)
    (file : IsFile fd bytes) (hb : All IsByte bytes) (a : ℕ) (r : List ℕ) (n : 4 ≤ length (a ∷ r))
    (b : All IsByte (a ∷ r)) (start : take 2 (a ∷ r) ≡ take 2 bytes) where
  -- The tests find the signature that a header has.
  Describes-classify :
      (ftype : FileType) (e : Endian) (size : ℕ)
      → Describes bytes (a ∷ r) e0 size0 (detected ftype (length bytes) (e, size)) ftype
      → classify_header host fd e0 size0 (a ∷ r) (length bytes)
        ≡ ok (detected ftype (length bytes) (e, size))
  unfolding classify_header
  Describes-classify ftype_unknown e size t = absurd t
  Describes-classify ftype_elf e size t =
      let (i, f) = (fill_in_elf_fields_iff (a ∷ r) e size n).1 t in rw (i, f)
  Describes-classify ftype_mach_o e size t =
      let m = mach_byte a r t in
      rw (
        not_elf (a ∷ r) (ground arith),
        not_universal a r n b (λ f. ground arith),
        (is_mach_o_magic_iff (a ∷ r) e size n b).1 t,
      )
  Describes-classify ftype_appleuniversal e size t =
      let m = fat_byte a r t in
      rw (not_elf (a ∷ r) (ground arith), (is_mach_o_universal_iff (a ∷ r) e size n b).1 t)
  Describes-classify ftype_archive e size (t, te, ts) =
      let first : a ≡ 0x21 = ground arith in
      rw (
        not_elf (a ∷ r) (ground arith),
        not_universal a r n b (λ f. ground arith),
        not_mach a r n b (λ f. ground arith),
        (is_archive_magic_iff (a ∷ r)).1 t,
        te,
        ts,
      )
  Describes-classify ftype_pe e size t =
      let first : (a ≡ 0x4d) ⊎ (a ≡ 0x5a) = dos_byte a r (rw (← start) at t.dos) in
      rw (
        not_elf (a ∷ r) (ground arith),
        not_universal a r n b (λ f. ground arith),
        not_mach a r n b (λ f. ground arith),
        not_archive a r (ground arith),
        (is_pe_object_iff fd bytes file hb host e size).1 t,
      )

header_first : (h : List ℕ) → 4 ≤ length h → (a : ℕ) × (r : List ℕ) × (h ≡ a ∷ r)
header_first (a ∷ r) n = (a, r, refl)
header_first [] n = absurd (omega arith)

-- On a file of bytes, when `dwarf_object_detector_fd_a` succeeds at a base offset, the file has more
-- than 24 bytes from there on, the result has the size of the file, and the bytes at the base carry
-- the signature of the result. For a PE object that is the start of the file, whatever the base.
pub dwarf_object_detector_fd_a-Describes :
    (host : Host) (fd : Descriptor) (bytes : List ℕ) (e0 : Endian) (size0 base : ℕ) (d : Detected)
    → IsFile fd bytes
    → All IsByte bytes
    → dwarf_object_detector_fd_a host fd e0 size0 base ≡ ok d
    → (base + 24 < length bytes)
      × (d.filesize ≡ length bytes)
      × Describes bytes (slice bytes base 24) e0 size0 d d.ftype
dwarf_object_detector_fd_a-Describes host fd bytes e0 size0 base d file hb q =
    let h = detector_short host fd bytes e0 size0 file hb base q in
    let n = length-slice bytes base 24 in
    let (s, t) =
      classify-Fits host fd bytes e0 size0 file hb (slice bytes base 24) (omega arith)
        (All-take IsByte 24 (drop base bytes) (All-drop IsByte base bytes hb))
        (sym (detector_long host fd bytes e0 size0 file hb base h) ∙ q) in
    (h, s, t)

detector_complete :
    (host : Host) (fd : Descriptor) (bytes : List ℕ) (e0 : Endian) (size0 : ℕ) (d : Detected)
    → IsFile fd bytes
    → All IsByte bytes
    → 24 < length bytes
    → d.filesize ≡ length bytes
    → Describes bytes (slice bytes 0 24) e0 size0 d d.ftype
    → dwarf_object_detector_fd_a host fd e0 size0 0 ≡ ok d
detector_complete host fd bytes e0 size0 d file hb n s t =
    let same : d ≡ detected d.ftype (length bytes) (d.endian, d.offsetsize) =
      ap (λ k. record d { filesize = k }) s in
    let len = length-slice bytes 0 24 in
    let (a, r, e) = header_first (slice bytes 0 24) (omega arith) in
    let start = ap (take 2) (sym e) ∙ take-take 2 24 bytes (omega arith) in
    let t' = subst₂ (λ h x. Describes bytes h e0 size0 x d.ftype) e same t in
    detector_long host fd bytes e0 size0 file hb 0 n
    ∙ rw e (
        Describes-classify host fd bytes e0 size0 file hb a r
          (subst (λ h. 4 ≤ length h) e (omega arith))
          (subst (All IsByte) e (All-take IsByte 24 bytes hb)) start d.ftype d.endian d.offsetsize
          t'
        ∙ ap ok (sym same))

-- On a file of bytes `dwarf_object_detector_fd` succeeds with the result `d` exactly when the file
-- has more than 24 bytes, its start carries the signature of the kind, byte order and offset size
-- in `d`, and `d` has the size of the file. For an archive the byte order and the offset size are
-- those that the caller passed in.
pub dwarf_object_detector_fd_iff :
    (host : Host) (fd : Descriptor) (bytes : List ℕ) (e0 : Endian) (size0 : ℕ) (d : Detected)
    → IsFile fd bytes
    → All IsByte bytes
    → (dwarf_object_detector_fd host fd e0 size0 ≡ ok d)
      ↔ (24 < length bytes)
        × (d.filesize ≡ length bytes)
        × Describes bytes (slice bytes 0 24) e0 size0 d d.ftype
unfolding dwarf_object_detector_fd
dwarf_object_detector_fd_iff host fd bytes e0 size0 d file hb = (
  dwarf_object_detector_fd_a-Describes host fd bytes e0 size0 0 d file hb,
  λ (n, s, t). detector_complete host fd bytes e0 size0 d file hb n s t,
)

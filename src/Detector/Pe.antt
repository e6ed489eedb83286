-- ===== src/Detector/Pe.antt =====
-- `is_pe_object` of src/dwarf_object_detector.c accepts exactly the PE objects.
use readelfobj_code.Base.{
  ℕ, ◌+◌, ◌≤◌, ◌<◌, ◌^◌, ◌≡◌, ◌∙◌, refl, ◌↔◌, inl, inr, arith, false, List, [], ◌∷◌, drop, length,
  All, leb, ltb, take-drop-take, take-take, sym, All-take, All-drop, Bool-cases,
}
use readelfobj_code.Base.Words.{IsByte}
use readelfobj_code.Bytes.{magic_copy, Host, little_host, big_host, WordSwap, asnar}
use readelfobj_code.Bytes.Order.{
  magic_copy-value, IsWordSize, two, four, asnar-value, high_first_copy, low_first_copy,
}
use readelfobj_code.Codes.{Result, ok, ◌>>=◌, >>=-eq-ok}
use readelfobj_code.Detector.{
  Endian, endian_big, dos_signature, pe_offsetsize, read_nt_header, is_pe_object,
}
use readelfobj_code.Detector.Signature.{word, IsMachine, IsDosSignature, IsPe}
use readelfobj_code.ObjectRead.{Descriptor, IsFile, object_read_random}
use readelfobj_code.ObjectRead.Ranges.{slice, length-slice, object_read_random_lem}

IsWordSize-two : (s : List ℕ) → length s ≡ 2 → IsWordSize s
IsWordSize-two (a ∷ b ∷ []) h = two a b
IsWordSize-two _ h = absurd (omega arith)

IsWordSize-four : (s : List ℕ) → length s ≡ 4 → IsWordSize s
IsWordSize-four (a ∷ b ∷ c ∷ d ∷ []) h = four a b c d
IsWordSize-four _ h = absurd (omega arith)

-- The copy for a byte order. Only the two orders that a DOS header can give matter.
abbrev copy_for : Host → Endian → WordSwap
copy_for host endian_big = high_first_copy host
copy_for host _ = low_first_copy host

asnar-word :
    (host : Host) (e : Endian) {s : List ℕ}
    → IsWordSize s
    → asnar host (copy_for host e) s ≡ word e s
unfolding word
asnar-word host endian_big w = (asnar-value host w).0
asnar-word host _ w = (asnar-value host w).1

word_four : (e : Endian) (s : List ℕ) → length s ≡ 4 → All IsByte s → word e s < 2 ^ 32
unfolding word
word_four endian_big (a ∷ b ∷ c ∷ d ∷ []) n h = omega arith
word_four _ (a ∷ b ∷ c ∷ d ∷ []) n h = omega arith
word_four e _ n h = absurd (omega arith)

dos_signature_iff :
    (host : Host) (s : List ℕ) (w : WordSwap) (e : Endian)
    → length s ≡ 2
    → All IsByte s
    → (dos_signature host (magic_copy s 2) ≡ ok (w, e)) ↔ (w ≡ copy_for host e) × IsDosSignature e s
unfolding dos_signature high_first_copy low_first_copy
dos_signature_iff little_host (a ∷ b ∷ []) w e n h =
    let m = (magic_copy-value a b 0 0 [] h.0 h.1.0 (omega arith) (omega arith)).0 in
    (λ p. ground arith, λ p. ground arith)
dos_signature_iff big_host (a ∷ b ∷ []) w e n h =
    let m = (magic_copy-value a b 0 0 [] h.0 h.1.0 (omega arith) (omega arith)).0 in
    (λ p. ground arith, λ p. ground arith)
dos_signature_iff host _ w e n h = absurd (omega arith)

module _ (fd : Descriptor) (bytes : List ℕ) (file : IsFile fd bytes) where
  read_inside :
      (loc size : ℕ)
      → size ≤ 100
      → 0 < size
      → loc + size ≤ length bytes
      → object_read_random fd loc size (length bytes) ≡ ok (slice bytes loc size)
  read_inside loc size hs pos h =
      let read =
        object_read_random_lem fd bytes file loc size (omega (arith, file.end_signed))
          (omega arith) in
      ground arith

  read_nt_header_iff :
      (host : Host) (e e' : Endian) (nt size : ℕ)
      → nt < 2 ^ 32
      → (read_nt_header host fd (length bytes) (copy_for host e) e nt ≡ ok (e', size))
        ↔ (e' ≡ e)
          × (nt + 24 ≤ length bytes)
          × (word e (slice bytes nt 4) ≡ 0x4550)
          × IsMachine size (word e (slice bytes (nt + 4) 2))
  unfolding read_nt_header pe_offsetsize
  read_nt_header_iff host e e' nt size h = elim (Bool-cases (leb (nt + 24) (length bytes))) [
    | inl fits ↦
        let r1 = read_inside nt 4 (omega arith) (omega arith) (ground arith) in
        let r2 = read_inside (nt + 4) 20 (omega arith) (omega arith) (ground arith) in
        let n1 = length-slice bytes nt 4 in
        let n2 = length-slice bytes (nt + 4) 2 in
        let t2 = take-drop-take 2 0 20 (drop (nt + 4) bytes) (omega arith) in
        let a1 = asnar-word host e (IsWordSize-four (slice bytes nt 4) (ground arith)) in
        let a2 = asnar-word host e (IsWordSize-two (slice bytes (nt + 4) 2) (ground arith)) in
        (λ p. ground arith, λ p. ground arith)
    | inr short ↦ (λ p. ground arith, λ p. ground arith)
  ]

  -- What follows the DOS header, as a function of what that gives.
  abbrev behind_dos : Host → WordSwap × Endian → Result (Endian × ℕ)
  behind_dos host (w, e) =
      read_nt_header host fd (length bytes) w e (asnar host w (slice bytes 60 4))

  is_pe_object_long :
      (host : Host)
      → 88 ≤ length bytes
      → is_pe_object host fd (length bytes)
        ≡ (dos_signature host (magic_copy (slice bytes 0 2) 2) >>= behind_dos host)
  unfolding is_pe_object
  is_pe_object_long host h =
      let r = read_inside 0 64 (omega arith) (omega arith) (omega arith) in
      let long : ltb (length bytes) (64 + 4 + 20) ≡ false = ground arith in
      rw (long, r, take-take 2 64 bytes (omega arith), take-drop-take 4 60 64 bytes (omega arith))

  is_pe_object_short :
      (host : Host) {r : Endian × ℕ}
      → is_pe_object host fd (length bytes) ≡ ok r
      → 88 ≤ length bytes
  unfolding is_pe_object
  is_pe_object_short host p = ground arith

  module _ (host : Host) (size : ℕ) (hb : All IsByte bytes) where
    address_four : (e : Endian) → 88 ≤ length bytes → word e (slice bytes 60 4) < 2 ^ 32
    address_four e h =
        let n = length-slice bytes 60 4 in
        word_four e (slice bytes 60 4) (omega arith)
          (All-take IsByte 4 (drop 60 bytes) (All-drop IsByte 60 bytes hb))

    behind_dos-address :
        (e : Endian)
        → 88 ≤ length bytes
        → behind_dos host (copy_for host e, e)
          ≡ read_nt_header host fd (length bytes) (copy_for host e) e (word e (slice bytes 60 4))
    behind_dos-address e h =
        let n = length-slice bytes 60 4 in
        rw (asnar-word host e (IsWordSize-four (slice bytes 60 4) (omega arith)))

    dos_start :
        (w : WordSwap) (e : Endian)
        → 88 ≤ length bytes
        → (dos_signature host (magic_copy (slice bytes 0 2) 2) ≡ ok (w, e))
          ↔ (w ≡ copy_for host e) × IsDosSignature e (slice bytes 0 2)
    dos_start w e h =
        let n = length-slice bytes 0 2 in
        dos_signature_iff host (slice bytes 0 2) w e (omega arith) (All-take IsByte 2 bytes hb)

    IsPe-of :
        (w : WordSwap) (e e' : Endian)
        → 88 ≤ length bytes
        → dos_signature host (magic_copy (slice bytes 0 2) 2) ≡ ok (w, e)
        → behind_dos host (w, e) ≡ ok (e', size)
        → IsPe bytes e' size
    IsPe-of w e e' h q r =
        let (copy, dos) = (dos_start w e h).0 q in
        let t = sym (behind_dos-address e h) ∙ rw copy at r in
        let (same, inside, sig, machine) =
          (read_nt_header_iff host e e' (word e (slice bytes 60 4)) size (address_four e h)).0 t in
        rw same (record {
          nt = word e (slice bytes 60 4);
          long_enough = h;
          dos = dos;
          address = refl;
          inside = inside;
          signature = sig;
          machine = machine;
        })

    is_pe_object-IsPe :
        (e : Endian) → is_pe_object host fd (length bytes) ≡ ok (e, size) → IsPe bytes e size
    is_pe_object-IsPe e p =
        let h = is_pe_object_short host p in
        let ((w, e'), q, r) =
          >>=-eq-ok (dos_signature host (magic_copy (slice bytes 0 2) 2)) (behind_dos host)
            (sym (is_pe_object_long host h) ∙ p) in
        IsPe-of w e' e h q r

    IsPe-is_pe_object :
        (e : Endian) → IsPe bytes e size → is_pe_object host fd (length bytes) ≡ ok (e, size)
    IsPe-is_pe_object e p =
        let h = p.long_enough in
        let at_nt : p.nt < 2 ^ 32 = rw p.address (address_four e h) in
        let nt =
          (read_nt_header_iff host e e p.nt size at_nt).1
            (refl, p.inside, p.signature, p.machine) in
        is_pe_object_long host h
        ∙ rw ((dos_start (copy_for host e) e h).1 (refl, p.dos))
            (behind_dos-address e h ∙ rw (← p.address) nt)

-- `is_pe_object` on a file of bytes succeeds, with a byte order and an offset size, exactly when
-- the file is a PE object of that byte order and size. It is the same on either host.
pub is_pe_object_iff :
    (fd : Descriptor) (bytes : List ℕ)
    → IsFile fd bytes
    → All IsByte bytes
    → (host : Host) (e : Endian) (size : ℕ)
    → (is_pe_object host fd (length bytes) ≡ ok (e, size)) ↔ IsPe bytes e size
is_pe_object_iff fd bytes file hb host e size =
    (is_pe_object-IsPe fd bytes file host size hb e, IsPe-is_pe_object fd bytes file host size hb e)

-- ===== src/Detector/Path/Names.antt =====
-- Base names, and the paths that `dwarf_object_detector_path` of src/dwarf_object_detector.c opens.
use readelfobj_code.Base.{
  ℕ, ◌+◌, ◌*◌, ◌≤◌, ◌<◌, ◌^◌, ◌≡◌, refl, ap, ◌∙◌, ◌⊎◌, inl, inr, true, false, Option, none, some,
  List, [], ◌∷◌, ◌++◌, length, length-append, leb, if◌then◌else◌, All, arith, Option-cases,
  Bool-cases,
}
use readelfobj_code.Base.Words.{u64}
use readelfobj_code.Bytes.{Host}
use readelfobj_code.Codes.{Result, err, err_path_size}
use readelfobj_code.Detector.{Endian, Detected}
use readelfobj_code.Detector.Path.{
  is_separator, separator_loop, getbasename, dw_stpcpy, dsym_suffix, detector_path_out,
  with_outpath, detect_opened,
}
use readelfobj_code.ObjectRead.{Descriptor}

abbrev pub IsName : List ℕ → Type 0
IsName = All (λ c. is_separator c ≡ false)

-- What a base name `b` is of a string: the string itself, if it has no separator, or all behind its
-- last separator.
abbrev pub IsBaseName : List ℕ → List ℕ → Type 0
IsBaseName f b =
    IsName b
    × ((b ≡ f) ⊎ ((front : List ℕ) × (s : ℕ) × (f ≡ front ++ s ∷ b) × (is_separator s ≡ true)))

-- What the loop finds in the rest of a string.
separator_loop_lem :
    (q : List ℕ) (p : Option (List ℕ))
    → (IsName q × (separator_loop p q ≡ p))
      ⊎ ((front : List ℕ) × (s : ℕ) × (b : List ℕ) × (separator_loop p q ≡ some b)
          × (q ≡ front ++ s ∷ b)
          × (is_separator s ≡ true)
          × IsName b)
unfolding separator_loop
separator_loop_lem [] p = inl (tt, refl)
separator_loop_lem (c ∷ q) p = elim (separator_loop_lem q (if is_separator c then some q else p)) [
  | inr (front, s, b, e, r, t, n) ↦ inr (c ∷ front, s, b, e, ap (◌∷◌ c) r, t, n)
  | inl (n, e) ↦ elim (Bool-cases (is_separator c)) [
    | inl t ↦ inr ([], c, q, e ∙ ap (λ x. if x then some q else p) t, refl, t, n)
    | inr t ↦ inl ((t, n), e ∙ ap (λ x. if x then some q else p) t)
  ]
]

-- `getbasename` gives the base name of any string.
pub getbasename-IsBaseName : (f : List ℕ) → IsBaseName f (getbasename f)
unfolding getbasename
getbasename-IsBaseName f = elim (separator_loop_lem f none) [
  | inl (n, e) ↦ rw (e, getbasename) (n, inl refl)
  | inr (front, s, b, e, r, t, n) ↦ rw (e, getbasename) (n, inr (front, s, r, t))
]

length-getbasename-le : (f : List ℕ) → length (getbasename f) ≤ length f
length-getbasename-le f = base_le f (getbasename f) (getbasename-IsBaseName f).1
  where
    base_le :
        (f b : List ℕ)
        → ((b ≡ f) ⊎ ((front : List ℕ) × (s : ℕ) × (f ≡ front ++ s ∷ b) × (is_separator s ≡ true)))
        → length b ≤ length f
    base_le f b (inl e) = rw e (omega arith)
    base_le f b (inr (front, s, e, t)) = rw e (omega (arith, length-append front (s ∷ b)))

-- The dSYM path that MacOS uses for a path.
abbrev pub dsym_path : List ℕ → List ℕ
dsym_path path = (path ++ dsym_suffix) ++ getbasename path

stpcpy_fits :
    (cap : ℕ) (before src : List ℕ)
    → length before + length src < cap
    → dw_stpcpy cap before src ≡ some (before ++ src)
unfolding dw_stpcpy
stpcpy_fits cap before src h = ground arith

-- What the function answers in a buffer that is long enough, by what the dSYM path opens.
module _ (host : Host) (open_file : List ℕ → Option Descriptor) (path : List ℕ) (e : Endian)
    (size : ℕ) where
  abbrev pub opened_result : Option Descriptor → Result Detected × List ℕ
  opened_result (some fd) = with_outpath (dsym_path path) (detect_opened host (some fd) e size)
  opened_result none = with_outpath path (detect_opened host (open_file path) e size)

module _ (host : Host) (open_file : List ℕ → Option Descriptor) (path : List ℕ) (e : Endian)
    (size : ℕ) (outpath_len : ℕ) (out : List ℕ) (sane : length path < 2 ^ 62) where
  -- For a path below 2^62 characters no write leaves the buffer. A buffer of at most
  -- `2 * length path + 34` bytes is refused with `RO_ERR_PATH_SIZE` and left as it is. Otherwise
  -- the dSYM path is looked at if it opens, and else the path; `outpath` holds the one looked at
  -- after a success, and is empty after any other answer.
  pub detector_path_out_lem : detector_path_out host open_file path outpath_len out e size ≡ (
      if leb outpath_len (2 * length path + 34)
      then some (err err_path_size, out)
      else some (opened_result host open_file path e size (open_file (dsym_path path))))
  unfolding detector_path_out
  detector_path_out_lem =
      let wraps : u64 (2 * length path + 32 + 2) ≡ 2 * length path + 34 = omega arith in
      elim (Bool-cases (leb outpath_len (2 * length path + 34))) [
        | inl short ↦ rw (wraps, short)
        | inr long ↦
            let room : 2 * length path + 34 < outpath_len = ground arith in
            let n1 = length-append path dsym_suffix in
            let n2 = length-getbasename-le path in
            rw
              (
                wraps,
                long,
                stpcpy_fits outpath_len [] path (omega arith),
                stpcpy_fits outpath_len path dsym_suffix (omega arith),
                stpcpy_fits outpath_len (path ++ dsym_suffix) (getbasename path) (omega arith),
              )
              (elim (Option-cases (open_file (dsym_path path))) [
                | inl e' ↦ rw (e', stpcpy_fits outpath_len [] path (omega arith))
                | inr (fd, e') ↦ rw e'
              ])
      ]

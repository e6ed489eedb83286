-- ===== src/Detector/Path.antt =====
-- `dwarf_object_detector_path` of src/dwarf_object_detector.c: the file to look at for a path, with
-- the MacOS dSYM file tried first, and the path that is left in `outpath`. A C string is the list
-- of its characters.
pub mod Names
use readelfobj_code.Base.{
  ℕ, ◌+◌, ◌*◌, Bool, ◌||◌, Option, none, some, List, [], ◌∷◌, ◌++◌, length, ltb, leb, ◌==◌,
  if◌then◌else◌,
}
use readelfobj_code.Base.Text.{codes}
use readelfobj_code.Base.Words.{u64}
use readelfobj_code.Bytes.{Host}
use readelfobj_code.Codes.{Result, ok, err, no_entry, err_path_size}
use readelfobj_code.Detector.{Endian, Detected, dwarf_object_detector_fd}
use readelfobj_code.ObjectRead.{Descriptor}

-- `\`, `/` and `:`
abbrev pub is_separator : ℕ → Bool
is_separator c = c == 0x5c || c == 0x2f || c == 0x3a

-- The loop over the characters that are left, with `p` so far.
unfoldable pub separator_loop : Option (List ℕ) → List ℕ → Option (List ℕ)
separator_loop p [] = p
separator_loop p (c ∷ q) = separator_loop (if is_separator c then some q else p) q

-- What stands behind the last separator, or `none` for NULL.
unfoldable pub getseparator : List ℕ → Option (List ℕ)
unfolding separator_loop
getseparator f = separator_loop none f

unfoldable pub getbasename : List ℕ → List ℕ
unfolding getseparator
getbasename f = elim (getseparator f) [ none ↦ f | some pseparator ↦ pseparator ]

-- `src` copied behind the string in a buffer of `cap` bytes. `none` is a write past its end.
unfoldable pub dw_stpcpy : ℕ → List ℕ → List ℕ → Option (List ℕ)
dw_stpcpy cap before src =
    if ltb (length before + length src) cap then some (before ++ src) else none

abbrev pub dsym_suffix : List ℕ
dsym_suffix = codes ".dSYM/Contents/Resources/DWARF/"

infixl 5 ◌>>=◌
abbrev ◌>>=◌ {ℓ κ} : {A : Type ℓ} {B : Type κ} → Option A → (A → Option B) → Option B
none >>= f = none
some a >>= f = f a

-- The string in `outpath` after the call, where a result that is no success leaves it empty.
abbrev with_outpath : List ℕ → Result Detected → Result Detected × List ℕ
with_outpath out (ok d) = (ok d, out)
with_outpath out (err e) = (err e, [])
with_outpath out no_entry = (no_entry, [])

abbrev detect_opened : Host → Option Descriptor → Endian → ℕ → Result Detected
detect_opened host none endian offsetsize = no_entry
detect_opened host (some fd) endian offsetsize = dwarf_object_detector_fd host fd endian offsetsize

-- With an `outpath` of `outpath_len` bytes, more than 0, that holds the string `out`. `open_file`
-- is `open`: a file, or nothing for an answer below 0.
unfoldable pub detector_path_out :
    Host
    → (List ℕ → Option Descriptor)
    → List ℕ
    → ℕ
    → List ℕ
    → Endian
    → ℕ
    → Option (Result Detected × List ℕ)
detector_path_out host open_file path outpath_len out endian offsetsize =
    if leb outpath_len (u64 (2 * length path + 32 + 2)) then some (err err_path_size, out) else do
      a ← dw_stpcpy outpath_len [] path
      b ← dw_stpcpy outpath_len a dsym_suffix
      c ← dw_stpcpy outpath_len b (getbasename path)
      elim (open_file c) [
        | some fd ↦ some (with_outpath c (detect_opened host (some fd) endian offsetsize))
        | none ↦ do
          again ← dw_stpcpy outpath_len [] path
          some (with_outpath again (detect_opened host (open_file path) endian offsetsize))
      ]

-- The whole function; `none` for `outpath` is a NULL, and a length of 0 counts as one.
unfoldable pub dwarf_object_detector_path :
    Host
    → (List ℕ → Option Descriptor)
    → List ℕ
    → Option (ℕ × List ℕ)
    → Endian
    → ℕ
    → Option (Result Detected × List ℕ)
unfolding detector_path_out
dwarf_object_detector_path host open_file path none endian offsetsize =
    some (detect_opened host (open_file path) endian offsetsize, [])
dwarf_object_detector_path host open_file path (some (outpath_len, out)) endian offsetsize =
    if outpath_len == 0
    then some (detect_opened host (open_file path) endian offsetsize, out)
    else detector_path_out host open_file path outpath_len out endian offsetsize

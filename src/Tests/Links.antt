-- ===== src/Tests/Links.antt =====
-- The theorems on debug links and build ids at concrete inputs.
use readelfobj_code.Base.{
  ℕ, ◌≡◌, ◌↔◌, refl, arith, List, [], ◌∷◌, ◌++◌, Option, none, some, replicate, All,
}
use readelfobj_code.Base.Text.{codes}
use readelfobj_code.Base.Words.{IsByte}
use readelfobj_code.Bytes.{asnar, little_host, plain}
use readelfobj_code.Codes.{Result, ok}
use readelfobj_code.DebugLink.{BuildId, extract_debuglink, extract_buildid}
use readelfobj_code.DebugLink.Loaded.{unloaded, loaded, loaded_as}
use readelfobj_code.DebugLink.Link.{IsLink, extract_debuglink_iff}
use readelfobj_code.DebugLink.Owner.{NoteHead, NoteAnswer, head_bytes}
use readelfobj_code.DebugLink.Note.{extract_buildid_lem, extract_buildid_fault}
use readelfobj_code.ObjectRead.Ranges.{slice}
use readelfobj_code.Tests.Files.{file_descriptor, file_descriptor-IsFile}

unfoldable zeroed : ℕ → Option (List ℕ)
zeroed n = some (replicate n 0)

-- A name of two characters, one byte of padding and a crc.
abbrev link_file : List ℕ
link_file = codes "ab" ++ (0 ∷ 0 ∷ 9 ∷ 8 ∷ 7 ∷ 6 ∷ [])

link_file-IsLink : IsLink (slice link_file 0 8) 4
link_file-IsLink = record {
  name = codes "ab";
  padding = 0 ∷ [];
  sum = 9 ∷ 8 ∷ 7 ∷ 6 ∷ [];
  layout = refl;
  text = ground arith;
  short = omega arith;
  aligned = refl;
  behind = refl;
  four = refl;
}

extract_debuglink_iff_example :
    (r : Result ℕ) × (extract_debuglink zeroed (file_descriptor link_file) 8 (unloaded 0 8)
      ≡ some (loaded link_file 0 8, r))
    × ((crc : ℕ) → (r ≡ ok crc) ↔ IsLink (slice link_file 0 8) crc)
unfolding zeroed
extract_debuglink_iff_example =
    extract_debuglink_iff zeroed (file_descriptor link_file) link_file (replicate 9 0) 0 8
      (file_descriptor-IsFile link_file (omega arith)) refl refl (omega arith) (omega arith)
      (omega arith)

words_four : asnar little_host plain (4 ∷ 0 ∷ 0 ∷ 0 ∷ []) ≡ 4
unfolding asnar
words_four = refl

words_two : asnar little_host plain (2 ∷ 0 ∷ 0 ∷ 0 ∷ []) ≡ 2
unfolding asnar
words_two = refl

words_three : asnar little_host plain (3 ∷ 0 ∷ 0 ∷ 0 ∷ []) ≡ 3
unfolding asnar
words_three = refl

words_eight : asnar little_host plain (8 ∷ 0 ∷ 0 ∷ 0 ∷ []) ≡ 8
unfolding asnar
words_eight = refl

-- The header of a note of 4, 2 and 3, an owner's name without a NUL, and two bytes.
abbrev note_file : List ℕ
note_file = 4 ∷ 0 ∷ 0 ∷ 0 ∷ 2 ∷ 0 ∷ 0 ∷ 0 ∷ 3 ∷ 0 ∷ 0 ∷ 0 ∷ (codes "GNU!" ++ (1 ∷ 2 ∷ []))

abbrev note_head : NoteHead little_host plain 4 2 3
note_head = record {
  n = 4 ∷ 0 ∷ 0 ∷ 0 ∷ [];
  d = 2 ∷ 0 ∷ 0 ∷ 0 ∷ [];
  t = 3 ∷ 0 ∷ 0 ∷ 0 ∷ [];
  n_four = refl;
  d_four = refl;
  t_four = refl;
  name_is = words_four;
  descr_is = words_two;
  type_is = words_three;
}

note_file-bytes : All IsByte note_file
note_file-bytes = ground arith

extract_buildid_lem_example :
    (r : Result BuildId) × (extract_buildid zeroed
        (file_descriptor note_file)
        18
        little_host
        plain
        (unloaded 0 18)
      ≡ some (
        loaded_as 0 18 (head_bytes note_head ++ (codes "GNU" ++ 0 ∷ ((1 ∷ 2 ∷ []) ++ 0 ∷ []))),
        r,
      ))
    × NoteAnswer little_host plain 4 2 3 note_head (codes "GNU") 18 r
unfolding zeroed
extract_buildid_lem_example =
    extract_buildid_lem zeroed (file_descriptor note_file) note_file (replicate 19 0) 0 18
      (file_descriptor-IsFile note_file (omega arith)) refl refl (omega arith) (omega arith)
      (omega arith) little_host plain 4 2 3 note_head (codes "GNU") (1 ∷ 2 ∷ []) 33 note_file-bytes
      refl refl (omega arith)

-- A section of 16 bytes whose owner's name would be of 8.
abbrev short_file : List ℕ
short_file = 8 ∷ 0 ∷ 0 ∷ 0 ∷ 2 ∷ 0 ∷ 0 ∷ 0 ∷ 3 ∷ 0 ∷ 0 ∷ 0 ∷ codes "GNU!"

abbrev short_head : NoteHead little_host plain 8 2 3
short_head = record {
  n = 8 ∷ 0 ∷ 0 ∷ 0 ∷ [];
  d = 2 ∷ 0 ∷ 0 ∷ 0 ∷ [];
  t = 3 ∷ 0 ∷ 0 ∷ 0 ∷ [];
  n_four = refl;
  d_four = refl;
  t_four = refl;
  name_is = words_eight;
  descr_is = words_two;
  type_is = words_three;
}

extract_buildid_fault_example :
    extract_buildid zeroed (file_descriptor short_file) 16 little_host plain (unloaded 0 16) ≡ none
unfolding zeroed
extract_buildid_fault_example =
    extract_buildid_fault zeroed (file_descriptor short_file) short_file (replicate 17 0) 0 16
      (file_descriptor-IsFile short_file (omega arith)) refl refl (omega arith) (omega arith)
      (omega arith) little_host plain 8 2 3 short_head (codes "GNU!") refl (omega arith)
      (omega arith)

-- ===== src/DebugLink/Note.antt =====
-- `extract_buildid` of src/dwarf_debuglink.c on the notes that a .note.gnu.build-id section holds.
use readelfobj_code.Base.{
  ℕ, ◌+◌, ◌^◌, ◌≤◌, ◌<◌, ◌≡◌, refl, sym, ap, ◌∙◌, arith, false, Option, none, some, List, [], ◌∷◌,
  ◌++◌, length, length-append, take, drop, length-take, length-drop, All, All-take, All-drop, ltb,
}
use mathlib.Core.List.{append_assoc}
use mathlib.Core.Path.{subst}
use readelfobj_code.Base.Memory.{◌>>=◌}
use readelfobj_code.Base.Words.{u64, IsByte}
use readelfobj_code.Bytes.{Host, WordSwap, asnar}
use readelfobj_code.Codes.{Result}
use readelfobj_code.DebugLink.{BuildId, note_in_area, buildid_in_area, extract_buildid}
use readelfobj_code.DebugLink.Loaded.{unloaded, loaded_as, store_all-slice}
use readelfobj_code.ObjectRead.{Descriptor, IsFile}
use readelfobj_code.ObjectRead.Ranges.{slice, length-slice, dwarf_object_read_random-inside}
use readelfobj_code.DebugLink.Words.{asnar_small, buildid_words, note_fault}
use readelfobj_code.DebugLink.Owner.{NoteHead, head_bytes, head_words, NoteAnswer, area_answers}

module _ (malloc : ℕ → Option (List ℕ)) (fd : Descriptor) (bytes block : List ℕ) (offset size : ℕ)
    (file : IsFile fd bytes) (memory : malloc (size + 1) ≡ some block)
    (fits : length block ≡ size + 1) (min_size : 16 ≤ size) (small : size ≤ 0x7fff_f000)
    (inside : offset + size ≤ length bytes) (host : Host) (copy : WordSwap) where
  extract_steps :
      (answer : Option (List ℕ × Result BuildId))
      → buildid_in_area host copy (slice bytes offset size ++ 0 ∷ []) size ≡ answer
      → extract_buildid malloc fd (length bytes) host copy (unloaded offset size)
        ≡ (answer >>= λ (area, r). some (loaded_as offset size area, r))
  unfolding extract_buildid
  extract_steps answer e =
      let no_wrap : u64 (size + 1) ≡ size + 1 = omega arith in
      let enough : ltb size 16 ≡ false = ground arith in
      let got =
        dwarf_object_read_random-inside fd bytes file offset size (omega arith) small inside in
      let (filled, stored, ended) = store_all-slice bytes block offset size fits inside in
      rw (no_wrap, memory, enough, got, stored, ended, e) refl

  word_bytes : All IsByte bytes → All IsByte (take 4 (drop 4 (slice bytes offset size)))
  word_bytes all = All-take IsByte 4 (drop 4 (slice bytes offset size)) (
      All-drop IsByte 4 (slice bytes offset size)
        (All-take IsByte size (drop offset bytes) (All-drop IsByte offset bytes all)))

  -- In a section of 16 to 0x7ffff000 bytes inside a file of bytes, with memory for it, that starts with
  -- the three words of a note and an owner's name of the size that the first word gives, which is below
  -- the section's size: `extract_buildid` answers what `NoteAnswer` says of these words and the name, and
  -- keeps the section with a NUL behind it and one in place of the last byte of the name.
  pub extract_buildid_lem :
      (namesize descrsize type : ℕ) (h : NoteHead host copy namesize descrsize type)
      (name rest : List ℕ) (c : ℕ)
      → All IsByte bytes
      → slice bytes offset size ≡ head_bytes h ++ (name ++ c ∷ rest)
      → length name + 1 ≡ namesize
      → namesize < size
      → (r : Result BuildId) × (extract_buildid malloc fd
            (length bytes)
            host
            copy
            (unloaded offset size)
          ≡ some (loaded_as offset size (head_bytes h ++ (name ++ 0 ∷ (rest ++ 0 ∷ []))), r))
        × NoteAnswer host copy namesize descrsize type h name size r
  extract_buildid_lem namesize descrsize type h name rest c all e at less =
      let section = slice bytes offset size in
      let word = head_words host copy namesize descrsize type h (name ++ c ∷ rest) in
      let small_word =
        asnar_small host copy (take 4 (drop 4 section))
          (omega (
            arith,
            length-take 4 (drop 4 section),
            length-drop 4 section,
            length-slice bytes offset size,
          ))
          (word_bytes all) in
      let descr : descrsize < 2 ^ 32 =
        subst (λ k. k < 2 ^ 32) (ap (λ m. asnar host copy (take 4 (drop 4 m))) e ∙ word.1)
          small_word in
      let whole : section ++ 0 ∷ [] ≡ head_bytes h ++ (name ++ c ∷ (rest ++ 0 ∷ [])) =
        ap (λ x. x ++ 0 ∷ []) e
        ∙ append_assoc (head_bytes h) (name ++ c ∷ rest) (0 ∷ [])
        ∙ ap (λ x. head_bytes h ++ x) (append_assoc name (c ∷ rest) (0 ∷ [])) in
      let (r, answer, is) =
        area_answers host copy namesize descrsize type h name (rest ++ 0 ∷ []) c size at less
          (omega arith) descr in
      (
        r,
        extract_steps (some (head_bytes h ++ (name ++ 0 ∷ (rest ++ 0 ∷ [])), r))
            (ap (λ m. buildid_in_area host copy m size) whole ∙ answer),
        is,
      )

  -- In a section of 16 to 0x7ffff000 bytes inside the file, with memory for it, that starts with the
  -- three words of a note: when the size of the owner's name is less than the section's size by one to
  -- ten bytes, the last byte of the name lies behind the block, and `extract_buildid` leaves the block.
  pub extract_buildid_fault :
      (namesize descrsize type : ℕ) (h : NoteHead host copy namesize descrsize type) (rest : List ℕ)
      → slice bytes offset size ≡ head_bytes h ++ rest
      → namesize < size
      → size < namesize + 11
      → extract_buildid malloc fd (length bytes) host copy (unloaded offset size) ≡ none
  extract_buildid_fault namesize descrsize type h rest e less far =
      let (n, d, t) = head_words host copy namesize descrsize type h (rest ++ 0 ∷ []) in
      let whole : slice bytes offset size ++ 0 ∷ [] ≡ head_bytes h ++ (rest ++ 0 ∷ []) =
        ap (λ x. x ++ 0 ∷ []) e ∙ append_assoc (head_bytes h) rest (0 ∷ []) in
      let ends : length (slice bytes offset size ++ 0 ∷ []) ≤ namesize + 11 =
        omega (
          arith,
          length-append (slice bytes offset size) (0 ∷ []),
          length-slice bytes offset size,
        ) in
      extract_steps none (
        ap (λ m. buildid_in_area host copy m size) whole
        ∙ buildid_words host copy (head_bytes h ++ (rest ++ 0 ∷ [])) size namesize descrsize type n
            d t
        ∙ ap (λ m. note_in_area m size namesize descrsize type) (sym whole)
        ∙ note_fault (slice bytes offset size ++ 0 ∷ []) size namesize descrsize type less
            ((omega arith), (omega arith), ends))

-- ===== src/DebugLink/Owner.antt =====
-- What `extract_buildid` of src/dwarf_debuglink.c answers for a note in a block.
use readelfobj_code.Base.{
  ℕ, ◌+◌, ◌-◌, ◌^◌, ◌<◌, ◌≡◌, ◌⊎◌, inl, inr, refl, sym, ap, ◌∙◌, arith, true, false, some, List,
  ◌∷◌, ◌++◌, length, length-append, take, drop, ltb, leb, ◌==◌, if◌then◌else◌, Bool-cases,
}
use mathlib.Core.List.{append_assoc}
use readelfobj_code.Base.Memory.{poke, poke-append}
use readelfobj_code.Base.Words.{u64}
use readelfobj_code.Bytes.{Host, WordSwap, asnar}
use readelfobj_code.Codes.{Result, ok, err, corrupt_gnu_debugid_string, corrupt_gnu_debugid_size}
use readelfobj_code.DebugLink.{BuildId, last_of_name, checked_owner, note_in_area, buildid_in_area}
use readelfobj_code.DebugLink.Strings.{IsText}
use readelfobj_code.DebugLink.Words.{
  strlen_lem, meets_nul_within, get_elem?-append, take_four, drop_of, buildid_words,
}

-- A section of `size` bytes that starts with the three words of a note.
pub record NoteHead (host : Host) (copy : WordSwap) (namesize descrsize type : ℕ) : Type 0 where
  pub n : List ℕ
  pub d : List ℕ
  pub t : List ℕ
  pub n_four : length n ≡ 4
  pub d_four : length d ≡ 4
  pub t_four : length t ≡ 4
  pub name_is : asnar host copy n ≡ namesize
  pub descr_is : asnar host copy d ≡ descrsize
  pub type_is : asnar host copy t ≡ type

-- The bytes of the three words.
abbrev pub head_bytes :
    {host : Host} {copy : WordSwap} {x y z : ℕ} → NoteHead host copy x y z → List ℕ
head_bytes h = h.n ++ (h.d ++ h.t)

module _ (host : Host) (copy : WordSwap) (namesize descrsize type : ℕ)
    (h : NoteHead host copy namesize descrsize type) where
  pub length-head : length (head_bytes h) ≡ 12
  length-head =
      omega
        (arith, length-append h.n (h.d ++ h.t), length-append h.d h.t, h.n_four, h.d_four, h.t_four)

  pub head_words :
      (r : List ℕ)
      → (asnar host copy (take 4 (head_bytes h ++ r)) ≡ namesize)
        × (asnar host copy (take 4 (drop 4 (head_bytes h ++ r))) ≡ descrsize)
        × (asnar host copy (take 4 (drop 8 (head_bytes h ++ r))) ≡ type)
  head_words r =
      let tail = h.t ++ r in
      let flat : head_bytes h ++ r ≡ h.n ++ (h.d ++ tail) =
        append_assoc h.n (h.d ++ h.t) r ∙ ap (λ x. h.n ++ x) (append_assoc h.d h.t r) in
      let flat' : head_bytes h ++ r ≡ (h.n ++ h.d) ++ tail =
        flat ∙ sym (append_assoc h.n h.d tail) in
      (
        ap (λ x. asnar host copy (take 4 x)) flat
            ∙ ap (asnar host copy) (take_four h.n (h.d ++ tail) h.n_four)
            ∙ h.name_is,
        ap (λ x. asnar host copy (take 4 (drop 4 x))) flat
            ∙ ap (λ x. asnar host copy (take 4 x)) (drop_of h.n (h.d ++ tail) 4 h.n_four)
            ∙ ap (asnar host copy) (take_four h.d tail h.d_four)
            ∙ h.descr_is,
        ap (λ x. asnar host copy (take 4 (drop 8 x))) flat'
            ∙ ap (λ x. asnar host copy (take 4 x))
                (drop_of (h.n ++ h.d) tail 8
                  (omega (arith, length-append h.n h.d, h.n_four, h.d_four)))
            ∙ ap (asnar host copy) (take_four h.t r h.t_four)
            ∙ h.type_is,
      )

  -- What is found in a note.
  abbrev pub found : BuildId
  found = record {
    type_returned = type;
    owner_name_returned = 12;
    build_id_length_returned = descrsize;
    build_id_returned = 12 + namesize;
  }

  -- The answer for a note whose owner's name is `name`.
  abbrev pub NoteAnswer : List ℕ → ℕ → Result BuildId → Type 0
  NoteAnswer name size r =
      IsText name
        × (r ≡ (
            if ltb size (12 + namesize + descrsize)
            then err corrupt_gnu_debugid_size
            else ok found))
      ⊎ (¬ IsText name) × (r ≡ err corrupt_gnu_debugid_string)

  pub owner_answers :
      (area name rest : List ℕ) (size : ℕ)
      → drop 12 area ≡ name ++ 0 ∷ rest
      → length name + 1 ≡ namesize
      → namesize < size
      → size < 2 ^ 62
      → descrsize < 2 ^ 32
      → (r : Result BuildId) × (checked_owner area size namesize descrsize type ≡ some r)
        × NoteAnswer name size r
  unfolding checked_owner
  owner_answers area name rest size behind e small wide descr =
      let inside : leb (12 + namesize) 12 ≡ false = ground arith in
      let count : 12 + namesize - 12 ≡ namesize = omega arith in
      let met = meets_nul_within name rest namesize (omega arith) in
      let (k, len, at) = strlen_lem name rest in
      let total : u64 (12 + namesize + descrsize) ≡ 12 + namesize + descrsize = omega arith in
      elim at [
        | inl (t, same) ↦
            let fits : (u64 (k + 1) == namesize) ≡ true = ground arith in
            (
              (if ltb size (12 + namesize + descrsize)
                  then err corrupt_gnu_debugid_size
                  else ok found),
              rw (behind, inside, count, met, behind, len, fits, total) refl,
              inl (t, refl),
            )
        | inr (no_text, less) ↦
            let differs : (u64 (k + 1) == namesize) ≡ false = ground arith in
            (
              err corrupt_gnu_debugid_string,
              rw (behind, inside, count, met, behind, len, differs) refl,
              inr (no_text, refl),
            )
      ]

  -- The NUL that is forced at the end of the owner's name.
  pub forced_nul :
      (front rest : List ℕ) (c : ℕ)
      → (if c == 0 then some (front ++ c ∷ rest) else poke (front ++ c ∷ rest) (length front) 0)
        ≡ some (front ++ 0 ∷ rest)
  forced_nul front rest c = elim (Bool-cases (c == 0)) [
    | inl z ↦ let is_nul : c ≡ 0 = ground arith in rw z (ap (λ x. some (front ++ x ∷ rest)) is_nul)
    | inr z ↦ rw z (poke-append front rest c 0)
  ]

  pub note_answers :
      (front name rest : List ℕ) (c size : ℕ) (r : Result BuildId)
      → length front ≡ namesize + 11
      → namesize < size
      → size < 2 ^ 62
      → checked_owner (front ++ 0 ∷ rest) size namesize descrsize type ≡ some r
      → note_in_area (front ++ c ∷ rest) size namesize descrsize type ≡ some (front ++ 0 ∷ rest, r)
  unfolding note_in_area
  note_answers front name rest c size r at small wide answer =
      let fits : leb size namesize ≡ false = ground arith in
      let at_last : last_of_name namesize ≡ length front = omega arith in
      rw (fits, at_last, get_elem?-append front rest c, forced_nul front rest c, answer) refl

  -- The section of `size` bytes, with the byte `c` at the end of the owner's name.
  pub area_answers :
      (name rest : List ℕ) (c size : ℕ)
      → length name + 1 ≡ namesize
      → namesize < size
      → size < 2 ^ 62
      → descrsize < 2 ^ 32
      → (r : Result BuildId) × (buildid_in_area host copy (head_bytes h ++ (name ++ c ∷ rest)) size
          ≡ some (head_bytes h ++ (name ++ 0 ∷ rest), r))
        × NoteAnswer name size r
  unfolding buildid_in_area
  area_answers name rest c size e small wide descr =
      let (n, d, t) = head_words (name ++ c ∷ rest) in
      let front = head_bytes h ++ name in
      let flat = λ (x : ℕ). append_assoc (head_bytes h) name (x ∷ rest) in
      let behind = drop_of (head_bytes h) (name ++ 0 ∷ rest) 12 length-head in
      let (r, answer, is) =
        owner_answers (head_bytes h ++ (name ++ 0 ∷ rest)) name rest size behind e small wide
          descr in
      let noted =
        note_answers front name rest c size r
          (omega (arith, length-append (head_bytes h) name, length-head)) small wide
          (ap (λ m. checked_owner m size namesize descrsize type) (flat 0) ∙ answer) in
      (
        r,
        buildid_words host copy (head_bytes h ++ (name ++ c ∷ rest)) size namesize descrsize type n
              d t
            ∙ ap (λ m. note_in_area m size namesize descrsize type) (sym (flat c))
            ∙ noted
            ∙ ap (λ m. some (m, r)) (flat 0),
        is,
      )

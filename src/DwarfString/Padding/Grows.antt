-- ===== src/DwarfString/Padding/Grows.antt =====
-- What the padding of src/dwarf_string.c keeps, whatever the allocator answers.
use readelfobj_code.Base.{
  ℕ, zero, suc, ◌-◌, ◌≤◌, ◌<◌, ◌^◌, ◌≡◌, inl, inr, refl, ap, ◌∙◌, arith, Bool, true, false, Option,
  none, some, List, [], ◌++◌, length, replicate, length-replicate, ltb, Bool-cases,
}
use mathlib.Core.List.{append_assoc, append-nil}
use mathlib.Core.Path.{subst, sym}
use readelfobj_code.Base.Memory.{◌>>=◌}
use readelfobj_code.DwarfString.{Dwarfstring, dwarfstring_append_length}
use readelfobj_code.DwarfString.Content.{Holds, IsAllocator, Appended, append_length-Appended}
use readelfobj_code.DwarfString.Padding.{
  append_rounds, append_spaces, append_zeros, append_text, append_error,
}

-- A step on a string that holds `text` is done, and the string holds the text and more behind it.
abbrev pub Grows : List ℕ → Option (Dwarfstring × Bool) → Type 0
Grows text result =
    (g : Dwarfstring) × (r : Bool) × (more : List ℕ) × (result ≡ some (g, r))
    × Holds g (text ++ more)

-- The same of a step that answers FALSE.
abbrev pub GrowsFalse : List ℕ → Option (Dwarfstring × Bool) → Type 0
GrowsFalse text result =
    (g : Dwarfstring) × (more : List ℕ) × (result ≡ some (g, false)) × Holds g (text ++ more)

pub Grows-then :
    (text : List ℕ) (m : Option (Dwarfstring × Bool))
    (k : Dwarfstring × Bool → Option (Dwarfstring × Bool))
    → Grows text m
    → ((g : Dwarfstring) (r : Bool) (text' : List ℕ) → Holds g text' → Grows text' (k (g, r)))
    → Grows text (m >>= k)
Grows-then text m k (g, r, more, e, h) next =
    let (g', r', more', e', h') = next g r (text ++ more) h in
    (
      g',
      r',
      more ++ more',
      ap (λ m. m >>= k) e ∙ e',
      subst (Holds g') (append_assoc text more more') h',
    )

pub Grows-then_false :
    (text : List ℕ) (m : Option (Dwarfstring × Bool))
    (k : Dwarfstring × Bool → Option (Dwarfstring × Bool))
    → Grows text m
    → ((g : Dwarfstring) (r : Bool) (text' : List ℕ) → Holds g text' → GrowsFalse text' (k (g, r)))
    → GrowsFalse text (m >>= k)
Grows-then_false text m k (g, r, more, e, h) next =
    let (g', more', e', h') = next g r (text ++ more) h in
    (
      g',
      more ++ more',
      ap (λ m. m >>= k) e ∙ e',
      subst (Holds g') (append_assoc text more more') h',
    )

pub unchanged : (g : Dwarfstring) (text : List ℕ) → Holds g text → Holds g (text ++ [])
unchanged g text h = subst (Holds g) (sym (append-nil text)) h

module _ (malloc : ℕ → Option (List ℕ)) (law : IsAllocator malloc) where
  Grows-of :
      (g : Dwarfstring) (text more : List ℕ) (slen : ℕ) (result : Option (Dwarfstring × Bool))
      → Holds g text
      → Appended malloc g text more slen result
      → Grows text result
  Grows-of g text more slen result h (inl (e, _)) = (g, false, [], e, unchanged g text h)
  Grows-of g text more slen result h (inr (g', e, h', _)) = (g', true, more, e, h')

  pub append_length-Grows :
      (g : Dwarfstring) (text str : List ℕ) (slen : ℕ)
      → Holds g text
      → slen ≤ length str
      → slen < 2 ^ 62
      → Grows text (dwarfstring_append_length malloc g (some str) slen)
  append_length-Grows g text str slen h hs wide =
      Grows-of g text _ slen _ h (append_length-Appended malloc g text str slen law h hs wide)

  pub append_text-Grows :
      (g : Dwarfstring) (text s : List ℕ)
      → Holds g text
      → length s < 2 ^ 62
      → Grows text (append_text malloc g s)
  append_text-Grows g text s h wide = append_length-Grows g text s (length s) h (omega arith) wide

  -- The rounds end, with less than a full piece left to write after full rounds.
  abbrev RoundsGrow : ℕ → List ℕ → Option (Dwarfstring × Option ℕ) → Type 0
  RoundsGrow charct text result =
      (g : Dwarfstring) × (left : Option ℕ) × (more : List ℕ) × (result ≡ some (g, left))
      × Holds g (text ++ more)
      × ((l : ℕ) → left ≡ some l → l ≤ charct)

  -- One full round and those behind it.
  append_round :
      (fuel fill charct : ℕ) (g : Dwarfstring) (l : ℕ) (text : List ℕ)
      → ltb charct l ≡ true
      → Grows text (dwarfstring_append_length malloc g (some (replicate charct fill)) charct)
      → ((g1 : Dwarfstring) (text1 : List ℕ)
          → Holds g1 text1
          → RoundsGrow charct text1 (append_rounds malloc fuel fill charct g1 (l - charct)))
      → RoundsGrow charct text (append_rounds malloc (suc fuel) fill charct g l)
  unfolding append_rounds
  append_round fuel fill charct g l text t (g1, false, m1, e1, h1) next =
      (g1, none, m1, rw (append_rounds, t, e1) refl, h1, λ m e. cc)
  append_round fuel fill charct g l text t (g1, true, m1, e1, h1) next =
      let (g2, left, m2, e2, h2, small_left) = next g1 (text ++ m1) h1 in
      (
        g2,
        left,
        m1 ++ m2,
        rw (append_rounds, t, e1) e2,
        subst (Holds g2) (append_assoc text m1 m2) h2,
        small_left,
      )

  append_rounds-Grows :
      (fuel fill charct : ℕ) (g : Dwarfstring) (l : ℕ) (text : List ℕ)
      → l < fuel
      → 1 ≤ charct
      → charct < 2 ^ 62
      → Holds g text
      → RoundsGrow charct text (append_rounds malloc fuel fill charct g l)
  unfolding append_rounds
  append_rounds-Grows zero fill charct g l text enough pos small h = absurd (omega arith)
  append_rounds-Grows (suc fuel) fill charct g l text enough pos small h =
      elim (Bool-cases (ltb charct l)) [
        | inr done ↦
            (g, some l, [], rw (append_rounds, done) refl, unchanged g text h, λ m e. ground arith)
        | inl more_left ↦
            let size = length-replicate {A = ℕ} charct fill in
            append_round fuel fill charct g l text more_left
              (append_length-Grows g text (replicate charct fill) charct h (omega arith) small)
              (λ g1 text1 h1.
                append_rounds-Grows fuel fill charct g1 (l - charct) text1 (ground arith) pos small
                  h1)
      ]

  pub append_spaces-Grows :
      (g : Dwarfstring) (text : List ℕ) (count : ℕ)
      → Holds g text
      → Grows text (append_spaces malloc g count)
  unfolding append_spaces
  append_spaces-Grows g text count h = finish (
      append_rounds-Grows (suc count) 0x20 39 g count text (omega arith) (omega arith) (omega arith)
        h)
    where
      finish :
          RoundsGrow 39 text (append_rounds malloc (suc count) 0x20 39 g count)
          → Grows text (append_spaces malloc g count)
      finish (g1, none, m1, e1, h1, _) = (g1, false, m1, rw e1 refl, h1)
      finish (g1, some l, m1, e1, h1, small) =
          let last = small l refl in
          let (g2, r, m2, e2, h2) =
            append_length-Grows g1 (text ++ m1) (replicate 39 0x20) l h1 (omega arith)
              (omega arith) in
          (g2, r, m1 ++ m2, rw e1 e2, subst (Holds g2) (append_assoc text m1 m2) h2)

  pub append_zeros-Grows :
      (g : Dwarfstring) (text : List ℕ) (count : ℕ)
      → Holds g text
      → Grows text (append_zeros malloc g count)
  unfolding append_zeros
  append_zeros-Grows g text count h = finish (
      append_rounds-Grows (suc count) 0x30 40 g count text (omega arith) (omega arith) (omega arith)
        h)
    where
      finish :
          RoundsGrow 40 text (append_rounds malloc (suc count) 0x30 40 g count)
          → Grows text (append_zeros malloc g count)
      finish (g1, none, m1, e1, h1, _) = (g1, false, m1, rw e1 refl, h1)
      finish (g1, some l, m1, e1, h1, small) =
          let last = small l refl in
          let (g2, r, m2, e2, h2) =
            append_length-Grows g1 (text ++ m1) (replicate 40 0x30) l h1 (omega arith)
              (omega arith) in
          (
            g2,
            ltb 40 count,
            m1 ++ m2,
            rw (e1, e2) refl,
            subst (Holds g2) (append_assoc text m1 m2) h2,
          )

  pub append_error-Grows :
      (g : Dwarfstring) (text message : List ℕ)
      → Holds g text
      → length message < 2 ^ 62
      → GrowsFalse text (append_error malloc g message)
  append_error-Grows g text message h small =
      Grows-then_false text _ _ (append_text-Grows g text message h small)
        (λ g' r text' h'. (g', [], refl, unchanged g' text' h'))

-- A step that answers FALSE grows the string like any other.
pub GrowsFalse-Grows :
    (text : List ℕ) (result : Option (Dwarfstring × Bool))
    → GrowsFalse text result
    → Grows text result
GrowsFalse-Grows text result (g, more, e, h) = (g, false, more, e, h)

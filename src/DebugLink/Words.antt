-- ===== src/DebugLink/Words.antt =====
-- The words and the strings that `extract_buildid` of src/dwarf_debuglink.c reads from a block.
use readelfobj_code.Base.{
  ℕ, zero, suc, ◌+◌, ◌^◌, ◌≤◌, ◌<◌, ◌≡◌, ◌≢◌, ◌⊎◌, inl, inr, refl, ap, ◌∙◌, arith, true, false,
  none, some, List, [], ◌∷◌, ◌++◌, length, take, drop, get_elem?, All, leb, ◌==◌, Bool-cases,
}
use mathlib.Core.Path.{subst}
use readelfobj_code.Base.Memory.{strlen, drop-append}
use readelfobj_code.Base.Words.{IsByte}
use readelfobj_code.Bytes.{
  Host, little_host, big_host, WordSwap, plain, swapping, asnar, little_value, big_value_from,
}
use readelfobj_code.Bytes.Order.{four, asnar-value, high_first_copy, low_first_copy}
use readelfobj_code.DebugLink.{meets_nul, last_of_name, note_in_area, buildid_in_area}
use readelfobj_code.DebugLink.Strings.{IsText}

-- Where the first NUL stands, if there is one behind `name`.
pub strlen_lem :
    (name rest : List ℕ)
    → (k : ℕ) × (strlen (name ++ 0 ∷ rest) ≡ some k)
      × ((IsText name × (k ≡ length name)) ⊎ ((¬ IsText name) × (k < length name)))
unfolding strlen
strlen_lem [] rest = (0, refl, inl (tt, refl))
strlen_lem (c ∷ name) rest = elim (Bool-cases (c == 0)) [
  | inl z ↦ (0, rw z refl, inr (λ t. t.0 (ground arith), omega arith))
  | inr z ↦
      let (k, e, at) = strlen_lem name rest in
      let not_nul : c ≢ 0 = ground arith in
      (
        suc k,
        rw (z, e) refl,
        elim at [
          | inl (t, same) ↦ inl ((not_nul, t), ap suc same)
          | inr (n, less) ↦ inr (λ t. n t.1, omega arith)
        ],
      )
]

-- A NUL is met, at the latest behind `name`.
pub meets_nul_within :
    (name rest : List ℕ) (n : ℕ) → length name < n → meets_nul (name ++ 0 ∷ rest) n ≡ some true
unfolding meets_nul
meets_nul_within name rest zero h = absurd (omega arith)
meets_nul_within [] rest (suc n) h = refl
meets_nul_within (c ∷ name) rest (suc n) h =
    let ih = meets_nul_within name rest n (omega arith) in ground arith

pub get_elem?-append : (h r : List ℕ) (c : ℕ) → get_elem? (h ++ c ∷ r) (length h) ≡ some c
get_elem?-append [] r c = refl
get_elem?-append (x ∷ h) r c = get_elem?-append h r c

pub get_elem?-none : (xs : List ℕ) (i : ℕ) → length xs ≤ i → get_elem? xs i ≡ none
get_elem?-none [] i h = refl
get_elem?-none (x ∷ xs) zero h = absurd (omega arith)
get_elem?-none (x ∷ xs) (suc i) h = get_elem?-none xs i (omega arith)

-- The word at the start of a note.
pub take_four : (s r : List ℕ) → length s ≡ 4 → take 4 (s ++ r) ≡ s
take_four (a ∷ b ∷ c ∷ d ∷ []) r h = refl
take_four [] r h = absurd (omega arith)
take_four (a ∷ []) r h = absurd (omega arith)
take_four (a ∷ b ∷ []) r h = absurd (omega arith)
take_four (a ∷ b ∷ c ∷ []) r h = absurd (omega arith)
take_four (a ∷ b ∷ c ∷ d ∷ e ∷ s) r h = absurd (omega arith)

pub drop_of : (s r : List ℕ) (n : ℕ) → length s ≡ n → drop n (s ++ r) ≡ r
drop_of s r n h = subst (λ k. drop k (s ++ r) ≡ r) h (drop-append s r)

pub four_bytes :
    (s : List ℕ) → length s ≡ 4 → (a : ℕ) × (b : ℕ) × (c : ℕ) × (d : ℕ) × (s ≡ a ∷ b ∷ c ∷ d ∷ [])
four_bytes (a ∷ b ∷ c ∷ d ∷ []) h = (a, b, c, d, refl)
four_bytes [] h = absurd (omega arith)
four_bytes (a ∷ []) h = absurd (omega arith)
four_bytes (a ∷ b ∷ []) h = absurd (omega arith)
four_bytes (a ∷ b ∷ c ∷ []) h = absurd (omega arith)
four_bytes (a ∷ b ∷ c ∷ d ∷ e ∷ s) h = absurd (omega arith)

-- Four bytes are a number of 32 bits, whatever the copy.
pub asnar_four :
    (host : Host) (copy : WordSwap) (a b c d : ℕ)
    → All IsByte (a ∷ b ∷ c ∷ d ∷ [])
    → asnar host copy (a ∷ b ∷ c ∷ d ∷ []) < 2 ^ 32
unfolding little_value big_value_from high_first_copy low_first_copy
asnar_four little_host plain a b c d h =
    rw ((asnar-value little_host (four a b c d)).1) (omega arith)
asnar_four little_host swapping a b c d h =
    rw ((asnar-value little_host (four a b c d)).0) (omega arith)
asnar_four big_host plain a b c d h = rw ((asnar-value big_host (four a b c d)).0) (omega arith)
asnar_four big_host swapping a b c d h = rw ((asnar-value big_host (four a b c d)).1) (omega arith)

pub asnar_small :
    (host : Host) (copy : WordSwap) (s : List ℕ)
    → length s ≡ 4
    → All IsByte s
    → asnar host copy s < 2 ^ 32
asnar_small host copy s h b =
    let (x, y, z, w, e) = four_bytes s h in
    rw e (asnar_four host copy x y z w (subst (All IsByte) e b))

-- The three words are all that the section's start is read for.
pub buildid_words :
    (host : Host) (copy : WordSwap) (area : List ℕ) (size namesize descrsize type : ℕ)
    → asnar host copy (take 4 area) ≡ namesize
    → asnar host copy (take 4 (drop 4 area)) ≡ descrsize
    → asnar host copy (take 4 (drop 8 area)) ≡ type
    → buildid_in_area host copy area size ≡ note_in_area area size namesize descrsize type
unfolding buildid_in_area
buildid_words host copy area size namesize descrsize type n d t =
    let word = asnar host copy in
    ap (λ x. note_in_area area size x (word (take 4 (drop 4 area))) (word (take 4 (drop 8 area)))) n
    ∙ ap (λ x. note_in_area area size namesize x (word (take 4 (drop 8 area)))) d
    ∙ ap (λ x. note_in_area area size namesize descrsize x) t

pub note_fault :
    (area : List ℕ) (size namesize descrsize type : ℕ)
    → namesize < size
    → (1 ≤ namesize) × (namesize < 2 ^ 62) × (length area ≤ namesize + 11)
    → note_in_area area size namesize descrsize type ≡ none
unfolding note_in_area
note_fault area size namesize descrsize type less (one, wide, far) =
    let fits : leb size namesize ≡ false = ground arith in
    let at_last : last_of_name namesize ≡ namesize + 11 = omega arith in
    rw (fits, at_last, get_elem?-none area (namesize + 11) far) refl

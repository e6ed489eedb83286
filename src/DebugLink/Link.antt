-- ===== src/DebugLink/Link.antt =====
-- `extract_debuglink` of src/dwarf_debuglink.c against the contents of a .gnu_debuglink section.
use readelfobj_code.Base.{
  ℕ, zero, suc, ◌+◌, ◌-◌, ◌%◌, ◌^◌, ◌≤◌, ◌<◌, ◌≡◌, ◌↔◌, inl, inr, refl, sym, ap, ◌∙◌, arith, Bool,
  true, false, Option, none, some, List, [], ◌∷◌, ◌++◌, length, length-append, length-take,
  length-drop, take, drop, leb, ◌==◌, if◌then◌else◌, Bool-cases,
}
use mathlib.Core.List.{append_assoc}
use mathlib.Core.Path.{subst}
use readelfobj_code.Base.Memory.{strlen}
use readelfobj_code.Base.Words.{u32, u64}
use readelfobj_code.Codes.{Result, ok, err, form_string_bad_string, corrupt_gnu_debuglink}
use readelfobj_code.DebugLink.{meets_nul, dwarf_check_string_valid, link_in_area, extract_debuglink}
use readelfobj_code.DebugLink.Strings.{IsText, meets_nul_lem, meets_nul-append, strlen-append}
use readelfobj_code.ObjectRead.{Descriptor, IsFile}
use readelfobj_code.ObjectRead.Ranges.{slice, length-slice, dwarf_object_read_random-inside}
use readelfobj_code.DebugLink.Loaded.{unloaded, loaded, store_all-slice}

-- The contents of a .gnu_debuglink section: a name with its NUL, padding up to a multiple of four,
-- and four bytes, which start at `crc`.
pub record IsLink (content : List ℕ) (crc : ℕ) : Type 0 where
  pub name : List ℕ
  pub padding : List ℕ
  pub sum : List ℕ
  pub layout : content ≡ name ++ 0 ∷ (padding ++ sum)
  pub text : IsText name
  pub short : length padding < 4
  pub aligned : crc % 4 ≡ 0
  pub behind : crc ≡ length name + 1 + length padding
  pub four : length sum ≡ 4

take-drop : (n : ℕ) (xs : List ℕ) → take n xs ++ drop n xs ≡ xs
take-drop zero xs = refl
take-drop (suc n) [] = refl
take-drop (suc n) (x ∷ xs) = ap (◌∷◌ x) (take-drop n xs)

some_nat : Option ℕ → ℕ
some_nat none = 0
some_nat (some n) = n

-- A NUL ends only one text.
text_unique :
    (a r b s : List ℕ) → IsText a → IsText b → a ++ 0 ∷ r ≡ b ++ 0 ∷ s → length a ≡ length b
unfolding some_nat
text_unique a r b s ta tb e =
    ap some_nat (sym (strlen-append a r ta) ∙ ap strlen e ∙ strlen-append b s tb)

-- The bytes that pad a name of `n` characters.
abbrev padding_of : ℕ → ℕ
padding_of n = if u32 (u32 n + 1) % 4 == 0 then 0 else 4 - u32 (u32 n + 1) % 4

padding_of_lem : (n : ℕ) → n + 1 < 2 ^ 32 → (padding_of n < 4) × ((n + 1 + padding_of n) % 4 ≡ 0)
padding_of_lem n h = ground arith

padding_unique : (n p : ℕ) → n + 1 < 2 ^ 32 → p < 4 → (n + 1 + p) % 4 ≡ 0 → p ≡ padding_of n
padding_unique n p h hp e = ground arith

module _ (content : List ℕ) (small : length content < 2 ^ 32) where
  -- What is answered for a section that holds a text.
  abbrev answer : ℕ → Result ℕ
  answer n =
      if u32 n + 1 + padding_of n + 4 == length content
      then ok (u32 n + 1 + padding_of n)
      else err corrupt_gnu_debuglink

  answer-IsLink :
      (name rest : List ℕ) (crc : ℕ)
      → content ≡ name ++ 0 ∷ rest
      → IsText name
      → answer (length name) ≡ ok crc
      → IsLink content crc
  answer-IsLink name rest crc e t a =
      let n = length name in
      let size : length content ≡ n + suc (length rest) =
        ap length e ∙ length-append name (0 ∷ rest) in
      let (few, even) = padding_of_lem n (omega arith) in
      let is_crc : crc ≡ n + 1 + padding_of n = ground arith in
      let ends : n + 1 + padding_of n + 4 ≡ length content = ground arith in
      record {
        name = name;
        padding = take (padding_of n) rest;
        sum = drop (padding_of n) rest;
        layout = e ∙ ap (λ r. name ++ 0 ∷ r) (sym (take-drop (padding_of n) rest));
        text = t;
        short = omega (arith, length-take (padding_of n) rest);
        aligned = rw is_crc even;
        behind = omega (arith, length-take (padding_of n) rest);
        four = omega (arith, length-drop (padding_of n) rest);
      }

  IsLink-answer :
      (name rest : List ℕ) (crc : ℕ)
      → content ≡ name ++ 0 ∷ rest
      → IsText name
      → IsLink content crc
      → answer (length name) ≡ ok crc
  IsLink-answer name rest crc e t l =
      let same : length l.name ≡ length name =
        text_unique l.name (l.padding ++ l.sum) name rest l.text t (sym l.layout ∙ e) in
      let n = length name in
      let size : length content ≡ length l.name + suc (length l.padding + length l.sum) =
        ap length l.layout
        ∙ length-append l.name (0 ∷ (l.padding ++ l.sum))
        ∙ ap (λ k. length l.name + suc k) (length-append l.padding l.sum) in
      let pad : length l.padding ≡ padding_of n =
        padding_unique n (length l.padding) (omega (arith, l.four)) l.short
          (subst (λ k. k % 4 ≡ 0) (l.behind ∙ ap (λ k. k + 1 + length l.padding) same) l.aligned) in
      let is_crc : u32 n + 1 + padding_of n ≡ crc = omega (arith, l.behind, l.four) in
      let ends : (u32 n + 1 + padding_of n + 4 == length content) ≡ true = ground (arith, l.four) in
      rw ends (ap ok is_crc)

  -- The check of the section with its NUL behind it.
  check_content :
      (b : Bool)
      → meets_nul content (length content) ≡ some b
      → dwarf_check_string_valid (content ++ 0 ∷ []) 0 0 (length content) form_string_bad_string
        ≡ some (if b then ok tt else err form_string_bad_string)
  unfolding dwarf_check_string_valid
  check_content b e = elim (Bool-cases (leb (length content) 0)) [
    | inl z ↦
        let none_there : length content ≡ 0 = ground arith in
        let no_nul : b ≡ false = ground (arith, ap (meets_nul content) none_there) in
        rw (z, no_nul) refl
    | inr z ↦
        let all_of_it : length content - 0 ≡ length content = omega arith in
        rw (z, all_of_it, meets_nul-append content (0 ∷ []) (length content) (omega arith), e) refl
  ]

  -- The answer for the section with its NUL behind it.
  link_in_area_iff :
      (r : Result ℕ) × (link_in_area (content ++ 0 ∷ []) (length content) ≡ some r)
      × ((crc : ℕ) → (r ≡ ok crc) ↔ IsLink content crc)
  unfolding link_in_area
  link_in_area_iff = elim (meets_nul_lem content (length content) (omega arith)) [
    | inl (e, (name, rest, d, t, l)) ↦
        let has_length : strlen (content ++ 0 ∷ []) ≡ some (length name) =
          ap (λ c. strlen (c ++ 0 ∷ [])) d
          ∙ ap strlen (append_assoc name (0 ∷ rest) (0 ∷ []))
          ∙ strlen-append name (rest ++ 0 ∷ []) t in
        (
          answer (length name),
          rw (check_content true e, has_length) refl,
          λ crc. (answer-IsLink name rest crc d t, IsLink-answer name rest crc d t),
        )
    | inr (e, no_string) ↦ (
      err form_string_bad_string,
      rw (check_content false e) refl,
      λ crc. (
        λ q. cc,
        λ (k : IsLink content crc). absurd (
            no_string (
              k.name,
              k.padding ++ k.sum,
              k.layout,
              k.text,
              omega (arith, ap length k.layout, length-append k.name (0 ∷ (k.padding ++ k.sum))),
            )),
      ),
    )
  ]

-- What an answer for a content may be.
abbrev Answers : List ℕ → ℕ → Type 0
Answers content size =
    (r : Result ℕ) × (link_in_area (content ++ 0 ∷ []) size ≡ some r)
    × ((crc : ℕ) → (r ≡ ok crc) ↔ IsLink content crc)

content-Answers :
    (content : List ℕ) (size : ℕ) → length content ≡ size → size < 2 ^ 32 → Answers content size
content-Answers content size e h =
    subst (Answers content) e (link_in_area_iff content (omega arith))

module _ (malloc : ℕ → Option (List ℕ)) (fd : Descriptor) (bytes block : List ℕ) (offset size : ℕ)
    (file : IsFile fd bytes) (memory : malloc (size + 1) ≡ some block)
    (fits : length block ≡ size + 1) (some_bytes : 1 ≤ size) (small : size ≤ 0x7fff_f000)
    (inside : offset + size ≤ length bytes) where
  extract_steps :
      (r : Result ℕ)
      → link_in_area (slice bytes offset size ++ 0 ∷ []) size ≡ some r
      → extract_debuglink malloc fd (length bytes) (unloaded offset size)
        ≡ some (loaded bytes offset size, r)
  unfolding extract_debuglink
  extract_steps r e =
      let no_wrap : u64 (size + 1) ≡ size + 1 = omega arith in
      let has_bytes : (size == 0) ≡ false = ground arith in
      let got = dwarf_object_read_random-inside fd bytes file offset size some_bytes small inside in
      let (filled, stored, ended) = store_all-slice bytes block offset size fits inside in
      rw (no_wrap, memory, got, stored, ended, has_bytes, e) refl

  -- For a section that is not empty, below 2^31 - 4096 bytes, inside the file, not loaded before and
  -- for which there is memory, `extract_debuglink` never leaves a block, keeps the section's bytes
  -- with a NUL behind them, and answers with the index of the crc exactly when the bytes are a name
  -- with its NUL, padding up to a multiple of four, and the four bytes of the crc.
  pub extract_debuglink_iff :
      (r : Result ℕ) × (extract_debuglink malloc fd (length bytes) (unloaded offset size)
        ≡ some (loaded bytes offset size, r))
      × ((crc : ℕ) → (r ≡ ok crc) ↔ IsLink (slice bytes offset size) crc)
  extract_debuglink_iff =
      let same : length (slice bytes offset size) ≡ size =
        omega (arith, length-slice bytes offset size) in
      let (r, e, iff) = content-Answers (slice bytes offset size) size same (omega arith) in
      (r, extract_steps r e, iff)

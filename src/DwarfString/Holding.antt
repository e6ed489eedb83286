-- ===== src/DwarfString/Holding.antt =====
-- A string of src/dwarf_string.c that holds a text, and copies from and to its block.
use readelfobj_code.Base.{
  ℕ, suc, ◌+◌, ◌-◌, ◌≤◌, ◌<◌, ◌^◌, ◌≡◌, refl, sym, ap, ◌∙◌, arith, true, Option, some, List, [],
  ◌∷◌, ◌++◌, length, length-append, length-take, length-drop, take, drop, ltb, if◌then◌else◌,
}
use mathlib.Core.List.{append_assoc}
use readelfobj_code.Base.Memory.{poke_first, memcpy, memcpy-append}
use readelfobj_code.Base.Words.{u64}
use readelfobj_code.DwarfString.{
  Dwarfstring, dwarfstring_constructor, dwarfstring_strlen, append_copy,
}

-- The string `g` holds `text`, with a NUL behind it. Its size counts no byte that is not in its
-- block, and no block has 2^63 bytes.
pub record Holds (g : Dwarfstring) (text : List ℕ) : Type 0 where
  pub rest : List ℕ
  pub block : g.s_data ≡ text ++ 0 ∷ rest
  pub avail : length text + g.s_avail ≡ g.s_size
  pub fits : g.s_size ≤ length g.s_data
  pub small : length g.s_data < 2 ^ 63

-- A block has the size asked for, which is below 2^63.
abbrev pub IsAllocator : (ℕ → Option (List ℕ)) → Type 0
IsAllocator malloc = (n : ℕ) (b : List ℕ) → malloc n ≡ some b → (length b ≡ n) × (n < 2 ^ 63)

pub dwarfstring_constructor-Holds : Holds dwarfstring_constructor []
unfolding dwarfstring_constructor
dwarfstring_constructor-Holds = record {
  rest = [];
  block = refl;
  avail = refl;
  fits = omega arith;
  small = omega arith;
}

pub strlen-Holds :
    (g : Dwarfstring) (text : List ℕ) → Holds g text → dwarfstring_strlen g ≡ length text
strlen-Holds g text h = omega (arith, h.avail, h.fits, h.small)

length-block :
    (g : Dwarfstring) (text : List ℕ) (h : Holds g text)
    → length g.s_data ≡ length text + 1 + length h.rest
length-block g text h = omega (arith, ap length h.block, length-append text (0 ∷ h.rest))

-- The copy of `slen` bytes behind the text, in a block with room for them and a NUL.
pub append_copy-Holds :
    (g : Dwarfstring) (text str : List ℕ) (slen : ℕ)
    → Holds g text
    → slen ≤ length str
    → slen < g.s_avail
    → (g' : Dwarfstring) × (append_copy g str slen (length text) ≡ some (g', true))
      × Holds g' (text ++ take slen str)
      × (g'.s_size ≡ g.s_size)
unfolding append_copy
append_copy-Holds g text str slen h hs ha =
    let mem = 0 ∷ h.rest in
    let size = length-block g text h in
    let copied =
      memcpy-append str text mem (length text) slen refl hs (omega (arith, h.fits, h.avail)) in
    let added = text ++ take slen str in
    let l1 = length-append text (take slen str) in
    let l2 = length-take slen str in
    let l3 = length-drop slen mem in
    let l4 = length-append text (take slen str ++ drop slen mem) in
    let left = u64 (g.s_avail + 0x1_0000_0000_0000_0000 - slen) in
    let left_is : left ≡ g.s_avail - slen = omega (arith, h.avail, h.fits, h.small) in
    let index : u64 (g.s_size + 0x1_0000_0000_0000_0000 - left) ≡ length added =
      omega (arith, h.avail, h.fits, h.small) in
    let (r, p, n) = poke_first added (drop slen mem) _ 0 index (omega (arith, h.fits, h.avail)) in
    let copied' : memcpy g.s_data (length text) str slen ≡ some (added ++ drop slen mem) =
      ap (λ d. memcpy d (length text) str slen) h.block
      ∙ copied
      ∙ ap some (sym (append_assoc text (take slen str) (drop slen mem))) in
    (
      record g { s_data = added ++ 0 ∷ r; s_avail = left },
      rw (copied', p),
      record {
        rest = r;
        block = refl;
        avail = omega (arith, h.avail);
        fits = omega (arith, h.fits, length-append added (0 ∷ r));
        small = omega (arith, h.small, length-append added (0 ∷ r));
      },
      refl,
    )

take-append : (xs ys : List ℕ) → take (length xs) (xs ++ ys) ≡ xs
take-append [] ys = refl
take-append (x ∷ xs) ys = ap (◌∷◌ x) (take-append xs ys)

copy_bytes :
    (text src rest b : List ℕ)
    → src ≡ text ++ 0 ∷ rest
    → length text < length b
    → (if ltb 0 (length text) then memcpy b 0 src (length text) else some b)
      ≡ some (text ++ drop (length text) b)
copy_bytes [] src rest b e h = refl
copy_bytes (t ∷ text) src rest b e h =
    let some_bytes : ltb 0 (suc (length text)) ≡ true = ground arith in
    let size = ap length e in
    let l = length-append text (0 ∷ rest) in
    rw some_bytes (
      memcpy-append src [] b 0 (suc (length text)) refl (omega arith) (omega arith)
      ∙ ap (λ x. some (x ++ drop (suc (length text)) b))
          (ap (take (suc (length text))) e ∙ take-append (t ∷ text) (0 ∷ rest)))

-- The text copied into a fresh block.
pub copy_text :
    (g : Dwarfstring) (text b : List ℕ)
    → Holds g text
    → length text < length b
    → (if ltb 0 (dwarfstring_strlen g) then memcpy b 0 g.s_data (dwarfstring_strlen g) else some b)
      ≡ some (text ++ drop (length text) b)
copy_text g text b h fits =
    rw (strlen-Holds g text h) (copy_bytes text g.s_data h.rest b h.block fits)

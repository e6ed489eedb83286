-- ===== src/DwarfString/Content.antt =====
-- The strings of src/dwarf_string.c hold the text that was appended, and never leave their blocks.
use readelfobj_code.Base.{
  ℕ, zero, suc, ◌+◌, ◌-◌, ◌*◌, ◌≤◌, ◌<◌, ◌^◌, ◌≡◌, ◌⊎◌, inl, inr, refl, ap, ◌∙◌, arith, Bool, true,
  false, Option, none, some, List, ◌∷◌, ◌++◌, length, length-append, length-drop, take, drop, ltb,
  leb, ◌==◌, if◌then◌else◌, Bool-cases, Option-cases,
}
use mathlib.Core.List.{append-nil}
use readelfobj_code.Base.Memory.{◌>>=◌, poke_first}
use readelfobj_code.Base.Words.{u64}
use readelfobj_code.DwarfString.{
  Dwarfstring, dwarfstring_strlen, dwarfstring_add_to, append_copy, dwarfstring_append_length,
}
pub use readelfobj_code.DwarfString.Holding.{
  Holds, IsAllocator, dwarfstring_constructor-Holds, strlen-Holds,
}
use readelfobj_code.DwarfString.Holding.{append_copy-Holds, copy_text}

-- The allocator answers NULL for some size up to a bound.
abbrev pub Refused : (ℕ → Option (List ℕ)) → ℕ → Type 0
Refused malloc bound = (n : ℕ) × (n ≤ bound) × (malloc n ≡ none)

-- A larger block with the same text. `newlen` leaves room for the text.
add_to-Holds :
    (malloc : ℕ → Option (List ℕ)) (g : Dwarfstring) (text : List ℕ) (newlen : ℕ)
    → IsAllocator malloc
    → Holds g text
    → length text < newlen
    → newlen + 1 < 2 ^ 64
    → (dwarfstring_add_to malloc g newlen ≡ some (g, false)) × Refused malloc (newlen + 31)
      ⊎ ((g' : Dwarfstring) × (dwarfstring_add_to malloc g newlen ≡ some (g', true))
          × Holds g' text
          × (g'.s_size ≡ newlen))
unfolding dwarfstring_add_to
add_to-Holds malloc g text newlen law h room wide =
    let asked = if ltb (u64 (newlen + 1)) 30 then 30 else u64 (newlen + 1) in
    elim (Option-cases (malloc asked)) [
      | inl e ↦ inl (rw (e, dwarfstring_add_to), (asked, ground arith, e))
      | inr (b, e) ↦
          let (size, small) = law asked b e in
          let enough : newlen + 1 ≤ length b = ground arith in
          let copied = copy_text g text b h (omega arith) in
          let at_end = strlen-Holds g text h in
          let l1 = length-drop (length text) b in
          let (r, p, n) = poke_first text (drop (length text) b) _ 0 at_end (omega arith) in
          let left = u64 (newlen + 0x1_0000_0000_0000_0000 - dwarfstring_strlen g) in
          inr (
            record { s_data = text ++ 0 ∷ r; s_size = newlen; s_avail = left; s_malloc = true },
            rw (e, dwarfstring_add_to) (rw (copied, p)),
            record {
              rest = r;
              block = refl;
              avail = omega arith;
              fits = omega (arith, length-append text (0 ∷ r));
              small = omega (arith, length-append text (0 ∷ r));
            },
            refl,
          )
    ]

-- What an append of `more`, of `slen` bytes, to a string that holds `text` may come to.
abbrev pub Appended :
    (ℕ → Option (List ℕ)) → Dwarfstring → List ℕ → List ℕ → ℕ → Option (Dwarfstring × Bool) → Type 0
Appended malloc g text more slen result =
    (result ≡ some (g, false)) × Refused malloc (g.s_size + slen + 33)
    ⊎ ((g' : Dwarfstring) × (result ≡ some (g', true))
        × Holds g' (text ++ more)
        × (g'.s_size ≤ g.s_size + 3 * slen))

module _ (malloc : ℕ → Option (List ℕ)) (law : IsAllocator malloc) (g : Dwarfstring)
    (text str : List ℕ) (slen : ℕ) (h : Holds g text) (hs : slen ≤ length str)
    (wide : slen < 2 ^ 62) where
  -- What follows the growth of the block.
  abbrev after_growth : Dwarfstring × Bool → Option (Dwarfstring × Bool)
  after_growth (grown, r) =
      if r then append_copy grown str slen (dwarfstring_strlen g) else some (grown, false)

  append_grown :
      (newlen : ℕ)
      → newlen ≡ g.s_size + slen + 2
      → 1 ≤ slen
      → g.s_avail ≤ slen
      → Appended malloc g text
          (take slen str)
          slen
          (dwarfstring_add_to malloc g newlen >>= after_growth)
  append_grown newlen e pos full =
      elim (add_to-Holds malloc g text newlen law h (omega (arith, h.avail))
        (omega (arith, h.fits, h.small))) [
          | inl (none_left, (n, le, refused)) ↦
              inl (ap (λ m. m >>= after_growth) none_left, (n, omega arith, refused))
          | inr (grown, e', h', size) ↦
              let (g', e'', h'', size') =
                append_copy-Holds grown text str slen h' hs (omega (arith, h'.avail, h.avail)) in
              inr (
                g',
                ap (λ m. m >>= after_growth) e'
                    ∙ ap (append_copy grown str slen) (strlen-Holds g text h)
                    ∙ e'',
                h'',
                omega arith,
              )
        ]

  append_fitting :
      slen < g.s_avail
      → Appended malloc g text (take slen str) slen (append_copy g str slen (dwarfstring_strlen g))
  append_fitting room =
      let (g', e, h', size) = append_copy-Holds g text str slen h hs room in
      inr (g', ap (append_copy g str slen) (strlen-Holds g text h) ∙ e, h', omega arith)

-- Whatever the allocator answers, appending the first `slen` bytes of a block, fewer than 2^62, to a
-- string that holds a text never leaves a block: either the answer is TRUE, the string holds its text
-- and those bytes behind it, and its size has grown by at most `3 * slen`; or the answer is FALSE, the
-- string is as it was, and the allocator answers NULL for some block of at most its size and those
-- bytes and 33 more.
pub append_length-Appended :
    (malloc : ℕ → Option (List ℕ)) (g : Dwarfstring) (text str : List ℕ) (slen : ℕ)
    → IsAllocator malloc
    → Holds g text
    → slen ≤ length str
    → slen < 2 ^ 62
    → Appended malloc g text
        (take slen str)
        slen
        (dwarfstring_append_length malloc g (some str) slen)
unfolding dwarfstring_append_length
append_length-Appended malloc g text str zero law h hs wide =
    inr (g, refl, rw append-nil h, omega arith)
append_length-Appended malloc g text str (suc n) law h hs wide =
    let positive : (suc n == 0) ≡ false = ground arith in
    elim (Bool-cases (leb g.s_avail (suc n))) [
      | inl full ↦
          rw (positive, full)
            (append_grown malloc law g text str (suc n) h hs wide _ (omega (arith, h.fits, h.small))
              (omega arith) (ground arith))
      | inr free ↦
          rw (positive, free)
            (append_fitting malloc law g text str (suc n) h hs wide (ground arith))
    ]

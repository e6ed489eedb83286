-- ===== src/DwarfString/Sequence/Safe.antt =====
-- No sequence of calls on a string of src/dwarf_string.c leaves its blocks.
use readelfobj_code.Base.{
  ℕ, suc, ◌≤◌, ◌<◌, ◌^◌, ◌≡◌, inl, inr, refl, ap, arith, Bool, true, Option, none, some, List, [],
  ◌∷◌, ◌++◌, length, ◌==◌, Bool-cases, All,
}
use mathlib.Core.Path.{subst}
use readelfobj_code.Base.Memory.{poke_first}
use readelfobj_code.DwarfString.{
  Dwarfstring, dwarfstring_reset, dwarfstring_destructor, dwarfstring_constructor,
  dwarfstring_strlen, dwarfstring_append, dwarfstring_append_length,
}
use readelfobj_code.DwarfString.Content.{
  Holds, IsAllocator, strlen-Holds, dwarfstring_constructor-Holds,
}
use readelfobj_code.DwarfString.Padding.Grows.{Grows, GrowsFalse-Grows, append_length-Grows}
use readelfobj_code.DwarfString.Sequence.{
  Call, destructor, reset, append_length, append, append_printf_s, append_printf_i, append_printf_u,
  perform, perform_all,
}
use readelfobj_code.DwarfString.Text.{dwarfstring_append_printf_s}
use readelfobj_code.DwarfString.Signed.Safe.{dwarfstring_append_printf_i-Grows}
use readelfobj_code.DwarfString.Text.Safe.{dwarfstring_append_printf_s-Grows}
use readelfobj_code.DwarfString.Unsigned.Safe.{dwarfstring_append_printf_u-GrowsFalse}

-- A C string or NULL, of fewer than 2^62 characters.
abbrev pub IsShort : Option (List ℕ) → Type 0
IsShort none = Unit {0}
IsShort (some s) = length s < 2 ^ 62

-- The arguments that a call may have: strings are not absurdly long, a block has the bytes that are
-- to be appended, and numbers have 64 bits.
abbrev pub IsLegal : Call → Type 0
IsLegal destructor = Unit {0}
IsLegal reset = Unit {0}
IsLegal (append_length none slen) = Unit {0}
IsLegal (append_length (some str) slen) = (slen ≤ length str) × (slen < 2 ^ 62)
IsLegal (append str) = IsShort str
IsLegal (append_printf_s format s) = IsShort format × IsShort s
IsLegal (append_printf_i format v) = IsShort format × (v < 2 ^ 64)
IsLegal (append_printf_u format v) = IsShort format × (v < 2 ^ 64)

-- A call is done, and leaves a string that holds some text.
abbrev Kept : Option (Dwarfstring × Bool) → Type 0
Kept result =
    (g : Dwarfstring) × (r : Bool) × (text : List ℕ) × (result ≡ some (g, r)) × Holds g text

Kept-grown :
    (text : List ℕ) (result : Option (Dwarfstring × Bool)) → Grows text result → Kept result
Kept-grown text result (g, r, more, e, h) = (g, r, text ++ more, e, h)

empty_text : (text : List ℕ) → length text ≡ 0 → text ≡ []
empty_text [] h = refl
empty_text (c ∷ text) h = absurd (omega arith)

-- A reset string holds nothing.
dwarfstring_reset-Holds :
    (g : Dwarfstring) (text : List ℕ)
    → Holds g text
    → (g' : Dwarfstring) × (dwarfstring_reset g ≡ some (g', true)) × Holds g' []
unfolding dwarfstring_reset
dwarfstring_reset-Holds g text h = elim (Bool-cases (g.s_size == 0)) [
  | inl e ↦
      let no_size : g.s_size ≡ 0 = ground arith in
      (g, rw e refl, subst (Holds g) (empty_text text (omega (arith, h.avail))) h)
  | inr e ↦
      let some_size : 1 ≤ g.s_size = ground arith in
      let (r, p, n) = poke_first [] g.s_data 0 0 refl (omega (arith, h.fits)) in
      (
        record g { s_avail = g.s_size; s_data = 0 ∷ r },
        rw (e, p) refl,
        record {
          rest = r;
          block = refl;
          avail = omega arith;
          fits = omega (arith, h.fits);
          small = omega (arith, h.small);
        },
      )
]

module _ (malloc : ℕ → Option (List ℕ)) (law : IsAllocator malloc) where
  append-Kept :
      (g : Dwarfstring) (text : List ℕ) (str : Option (List ℕ))
      → Holds g text
      → IsShort str
      → Kept (dwarfstring_append malloc g str)
  unfolding dwarfstring_append
  append-Kept g text none h short = (g, true, text, refl, h)
  append-Kept g text (some s) h short =
      Kept-grown text _ (append_length-Grows malloc law g text s (length s) h (omega arith) short)

  append_length-Kept :
      (g : Dwarfstring) (text : List ℕ) (str : Option (List ℕ)) (slen : ℕ)
      → Holds g text
      → IsLegal (append_length str slen)
      → Kept (dwarfstring_append_length malloc g str slen)
  unfolding dwarfstring_append_length
  append_length-Kept g text none slen h legal = (g, true, text, refl, h)
  append_length-Kept g text (some s) slen h legal =
      Kept-grown text _ (append_length-Grows malloc law g text s slen h legal.0 legal.1)

  printf_s-Kept :
      (g : Dwarfstring) (text : List ℕ) (format s : Option (List ℕ))
      → Holds g text
      → IsShort format
      → IsShort s
      → Kept (perform malloc (append_printf_s format s) g)
  unfolding perform dwarfstring_append_printf_s
  printf_s-Kept g text (some format) (some s) h wide small =
      let (grown, _, _) =
        dwarfstring_append_printf_s-Grows malloc g text format s law h wide small in
      Kept-grown text _ grown
  printf_s-Kept g text none (some s) h wide small =
      let (_, no_format, _) =
        dwarfstring_append_printf_s-Grows malloc g text [] s law h (omega arith) small in
      Kept-grown text _ (GrowsFalse-Grows text _ no_format)
  printf_s-Kept g text (some format) none h wide small =
      let (_, _, no_string) =
        dwarfstring_append_printf_s-Grows malloc g text format [] law h wide (omega arith) in
      Kept-grown text _ (GrowsFalse-Grows text _ no_string)
  printf_s-Kept g text none none h wide small =
      let (_, _, no_string) =
        dwarfstring_append_printf_s-Grows malloc g text [] [] law h (omega arith) (omega arith) in
      Kept-grown text _ (GrowsFalse-Grows text _ no_string)

  printf_i-Kept :
      (g : Dwarfstring) (text : List ℕ) (format : Option (List ℕ)) (v : ℕ)
      → Holds g text
      → IsShort format
      → v < 2 ^ 64
      → Kept (perform malloc (append_printf_i format v) g)
  unfolding perform
  printf_i-Kept g text (some format) v h wide hv =
      Kept-grown text _ (dwarfstring_append_printf_i-Grows malloc g text format v law h wide hv).0
  printf_i-Kept g text none v h wide hv = Kept-grown text _ (
      GrowsFalse-Grows text _
        (dwarfstring_append_printf_i-Grows malloc g text [] v law h (omega arith) hv).1)

  printf_u-Kept :
      (g : Dwarfstring) (text : List ℕ) (format : Option (List ℕ)) (v : ℕ)
      → Holds g text
      → IsShort format
      → v < 2 ^ 64
      → Kept (perform malloc (append_printf_u format v) g)
  unfolding perform
  printf_u-Kept g text (some format) v h wide hv = Kept-grown text _ (
      GrowsFalse-Grows text _
        (dwarfstring_append_printf_u-GrowsFalse malloc g text format v law h wide hv).0)
  printf_u-Kept g text none v h wide hv = Kept-grown text _ (
      GrowsFalse-Grows text _
        (dwarfstring_append_printf_u-GrowsFalse malloc g text [] v law h (omega arith) hv).1)

  perform-Kept :
      (call : Call) (g : Dwarfstring) (text : List ℕ)
      → IsLegal call
      → Holds g text
      → Kept (perform malloc call g)
  unfolding perform dwarfstring_destructor
  perform-Kept destructor g text legal h =
      (dwarfstring_constructor, true, [], refl, dwarfstring_constructor-Holds)
  perform-Kept reset g text legal h =
      let (g', e, h') = dwarfstring_reset-Holds g text h in (g', true, [], e, h')
  perform-Kept (append_length str slen) g text legal h = append_length-Kept g text str slen h legal
  perform-Kept (append str) g text legal h = append-Kept g text str h legal
  perform-Kept (append_printf_s format s) g text legal h =
      printf_s-Kept g text format s h legal.0 legal.1
  perform-Kept (append_printf_i format v) g text legal h =
      printf_i-Kept g text format v h legal.0 legal.1
  perform-Kept (append_printf_u format v) g text legal h =
      printf_u-Kept g text format v h legal.0 legal.1

-- Whatever the allocator answers, calls with legal arguments, one after the other on a string that
-- holds some text, never step outside a block: each is answered, and the string is left with a text
-- in its block, a NUL behind it, and the length that `dwarfstring_strlen` gives.
pub perform_all-Holds :
    (malloc : ℕ → Option (List ℕ)) (calls : List Call) (g : Dwarfstring) (text : List ℕ)
    → IsAllocator malloc
    → All IsLegal calls
    → Holds g text
    → (last : Dwarfstring) × (answers : List Bool) × (text' : List ℕ) × (perform_all malloc calls g
        ≡ some (last, answers))
      × (length answers ≡ length calls)
      × Holds last text'
      × (dwarfstring_strlen last ≡ length text')
unfolding perform_all
perform_all-Holds malloc [] g text law legal h = (g, [], text, refl, refl, h, strlen-Holds g text h)
perform_all-Holds malloc (call ∷ calls) g text law legal h =
    let (g1, r, text1, e1, h1) = perform-Kept malloc law call g text legal.0 h in
    let (last, answers, text2, e2, n, h2, l) =
      perform_all-Holds malloc calls g1 text1 law legal.1 h1 in
    (last, r ∷ answers, text2, rw (e1, e2) refl, ap suc n, h2, l)

-- ===== src/DwarfString/Padding.antt =====
-- The padding of src/dwarf_string.c, and the appends whose answers are not looked at.
pub mod Grows
use readelfobj_code.Base.{
  ℕ, zero, suc, ◌+◌, ◌-◌, Bool, true, false, Option, none, some, List, [], ◌∷◌, length, replicate,
  ltb,
}
use readelfobj_code.Base.Memory.{◌>>=◌}
use readelfobj_code.DwarfString.{Dwarfstring, dwarfstring_append_length}

module _ (malloc : ℕ → Option (List ℕ)) where
  -- The loop of `_dwarfstring_append_spaces` and of `_dwarfstring_append_zeros`, with `l` characters
  -- to go, `charct` at a time: the string after it and what is still to go, or no number after a
  -- failed append. The first number is fuel; `none` is also the end of that.
  unfoldable pub append_rounds : ℕ → ℕ → ℕ → Dwarfstring → ℕ → Option (Dwarfstring × Option ℕ)
  append_rounds zero fill charct g l = none
  append_rounds (suc fuel) fill charct g l = elim (ltb charct l) [
    | false ↦ some (g, some l)
    | true ↦
        dwarfstring_append_length malloc g (some (replicate charct fill)) charct >>= λ (g', res).
        elim res [ true ↦ append_rounds fuel fill charct g' (l - charct) | false ↦ some (g', none) ]
  ]

  -- 39 spaces at a time.
  unfoldable pub append_spaces : Dwarfstring → ℕ → Option (Dwarfstring × Bool)
  unfolding append_rounds
  append_spaces g count = append_rounds (suc count) 0x20 39 g count >>= λ (g', left). elim left [
    | none ↦ some (g', false)
    | some l ↦ dwarfstring_append_length malloc g' (some (replicate 39 0x20)) l
  ]

  -- 40 zeros at a time. The answer of the last append is not looked at: TRUE means that a full round
  -- was made before it.
  unfoldable pub append_zeros : Dwarfstring → ℕ → Option (Dwarfstring × Bool)
  unfolding append_rounds
  append_zeros g count = append_rounds (suc count) 0x30 40 g count >>= λ (g', left). elim left [
    | none ↦ some (g', false)
    | some l ↦ dwarfstring_append_length malloc g' (some (replicate 40 0x30)) l >>= λ (g'', _).
        some (g'', ltb 40 count)
  ]

  -- An append whose answer is not looked at.
  abbrev pub append_text : Dwarfstring → List ℕ → Option (Dwarfstring × Bool)
  append_text g text = dwarfstring_append_length malloc g (some text) (length text)

  -- DWSERR and the return of FALSE behind it.
  abbrev pub append_error : Dwarfstring → List ℕ → Option (Dwarfstring × Bool)
  append_error g message = append_text g message >>= λ (g', _). some (g', false)

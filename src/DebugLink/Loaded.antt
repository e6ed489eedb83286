-- ===== src/DebugLink/Loaded.antt =====
-- The blocks that the sections of src/dwarf_debuglink.c are read into.
use readelfobj_code.Base.{
  ℕ, ◌+◌, ◌≤◌, ◌≡◌, refl, sym, ap, ◌∙◌, arith, none, some, List, [], ◌∷◌, ◌++◌, length, length-drop,
  drop, empty_list,
}
use readelfobj_code.Base.Memory.{◌>>=◌, poke, poke_first, store_all, store_all-append}
use readelfobj_code.DebugLink.{Section}
use readelfobj_code.ObjectRead.Ranges.{slice, length-slice}

-- Bytes and a NUL behind them fill a block that is one byte longer.
pub store_all-poke :
    (block xs : List ℕ)
    → length block ≡ length xs + 1
    → (store_all block 0 xs >>= λ filled. poke filled (length xs) 0) ≡ some (xs ++ 0 ∷ [])
store_all-poke block xs h =
    let left = drop (length xs) block in
    let one_left = length-drop (length xs) block in
    let (r, p, n) = poke_first xs left (length xs) 0 refl (omega arith) in
    rw (store_all-append xs [] block 0 refl (omega arith))
      (p ∙ ap (λ t. some (xs ++ 0 ∷ t)) (empty_list r (omega arith)))

-- A section that is not loaded, and the same with its content and a NUL behind it in a block.
abbrev pub unloaded : ℕ → ℕ → Section
unloaded offset size = record { gh_size = size; gh_offset = offset; gh_content = none }

abbrev pub loaded_as : ℕ → ℕ → List ℕ → Section
loaded_as offset size area = record { gh_size = size; gh_offset = offset; gh_content = some area }

abbrev pub loaded : List ℕ → ℕ → ℕ → Section
loaded bytes offset size = loaded_as offset size (slice bytes offset size ++ 0 ∷ [])

-- The two steps that load a section inside the file.
pub store_all-slice :
    (bytes block : List ℕ) (offset size : ℕ)
    → length block ≡ size + 1
    → offset + size ≤ length bytes
    → (filled : List ℕ) × (store_all block 0 (slice bytes offset size) ≡ some filled)
      × (poke filled size 0 ≡ some (slice bytes offset size ++ 0 ∷ []))
store_all-slice bytes block offset size h inside =
    let xs = slice bytes offset size in
    let same : length xs ≡ size = omega (arith, length-slice bytes offset size) in
    let stored = store_all-append xs [] block 0 refl (omega arith) in
    let one_left = length-drop (length xs) block in
    let (r, p, n) = poke_first xs (drop (length xs) block) size 0 (sym same) (omega arith) in
    (
      xs ++ drop (length xs) block,
      stored,
      p ∙ ap (λ t. some (xs ++ 0 ∷ t)) (empty_list r (omega arith)),
    )

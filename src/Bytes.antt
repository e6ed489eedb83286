-- ===== src/Bytes.antt =====
-- Words in memory: `dwarf_ro_memcpy_swap_bytes` of src/dwarf_object_read_common.c, and
-- `memcpy_swap_bytes`, `magic_copy` and the macro `ASNAR` of src/dwarf_object_detector.c. Memory is
-- a list of bytes, lowest address first; `unsigned long` has 8 bytes.
pub mod Order
use readelfobj_code.Base.{ℕ, zero, suc, ◌+◌, ◌-◌, ◌*◌, bit_or, List, [], ◌∷◌, ◌++◌, take, get_or}
use readelfobj_code.Base.{length, replicate, ◌==◌, if◌then◌else◌}
use readelfobj_code.Base.Words.{u64}

-- The byte at index `i` of memory that is long enough.
abbrev pub byte : List ℕ → ℕ → ℕ
byte d i = get_or d i 0

-- What the copy stores at its target, which holds `len` bytes.
unfoldable pub memcpy_swap_bytes : List ℕ → ℕ → List ℕ
memcpy_swap_bytes src len =
    if len == 4
    then byte src 3 ∷ byte src 2 ∷ byte src 1 ∷ byte src 0 ∷ []
    else if len == 8
    then byte src 7
      ∷ byte src 6
      ∷ byte src 5
      ∷ byte src 4
      ∷ byte src 3
      ∷ byte src 2
      ∷ byte src 1
      ∷ byte src 0
      ∷ []
    else if len == 2
    then byte src 1 ∷ byte src 0 ∷ []
    else if len == 1
    then byte src 0 ∷ []
    else take len src

-- The same text in src/dwarf_object_read_common.c.
unfoldable pub dwarf_ro_memcpy_swap_bytes : List ℕ → ℕ → List ℕ
dwarf_ro_memcpy_swap_bytes src len =
    if len == 4
    then byte src 3 ∷ byte src 2 ∷ byte src 1 ∷ byte src 0 ∷ []
    else if len == 8
    then byte src 7
      ∷ byte src 6
      ∷ byte src 5
      ∷ byte src 4
      ∷ byte src 3
      ∷ byte src 2
      ∷ byte src 1
      ∷ byte src 0
      ∷ []
    else if len == 2
    then byte src 1 ∷ byte src 0 ∷ []
    else if len == 1
    then byte src 0 ∷ []
    else take len src

-- The values of `word_swap`, a pointer to one of two functions.
pub data WordSwap : Type 0 where
  plain swapping : WordSwap

unfoldable pub copy_word : WordSwap → List ℕ → ℕ → List ℕ
unfolding memcpy_swap_bytes
copy_word plain src len = take len src
copy_word swapping src len = memcpy_swap_bytes src len

-- The machine that the program runs on: WORDS_BIGENDIAN or not.
pub data Host : Type 0 where
  little_host big_host : Host

unfoldable pub little_value : List ℕ → ℕ
little_value [] = 0
little_value (b ∷ bs) = b + 256 * little_value bs

unfoldable pub big_value_from : ℕ → List ℕ → ℕ
big_value_from v [] = v
big_value_from v (b ∷ bs) = big_value_from (v * 256 + b) bs

-- `ASNAR(func,t,s)`: the bytes of `s` go to the low end of a zeroed `unsigned long`, which is at
-- its lowest address on a little-endian host and at its highest on a big-endian one.
unfoldable pub asnar : Host → WordSwap → List ℕ → ℕ
unfolding copy_word little_value big_value_from
asnar little_host func s = little_value (copy_word func s (length s) ++ replicate (8 - length s) 0)
asnar big_host func s = big_value_from 0 (replicate (8 - length s) 0 ++ copy_word func s (length s))

-- The rounds of `for (i = 1 ; i < len; ++i)` from `i` on.
unfoldable pub magic_loop : ℕ → ℕ → List ℕ → ℕ → ℕ
magic_loop zero i d v = v
magic_loop (suc rounds) i d v = magic_loop rounds (i + 1) d (bit_or (u64 (v * 256)) (byte d i))

unfoldable pub magic_copy : List ℕ → ℕ → ℕ
unfolding magic_loop
magic_copy d len = magic_loop (len - 1) 1 d (byte d 0)

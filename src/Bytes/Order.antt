-- ===== src/Bytes/Order.antt =====
-- What the words of src/dwarf_object_detector.c are worth: copies, the host's byte order, and magic
-- numbers.
use readelfobj_code.Base.{
  ℕ, suc, ◌+◌, ◌*◌, ◌^◌, ◌%◌, ◌<◌, ◌≡◌, refl, ◌∙◌, arith, List, [], ◌∷◌, length,
}
use mathlib.Core.List.{reverse}
use readelfobj_code.Base.Words.{IsByte}
use readelfobj_code.Base.Bits.{bit_or_byte}
use readelfobj_code.Bytes.{
  byte, memcpy_swap_bytes, dwarf_ro_memcpy_swap_bytes, WordSwap, plain, swapping, copy_word, Host,
  little_host, big_host, little_value, big_value_from, asnar, magic_loop, magic_copy,
}

-- The sizes that the copy is meant for.
pub data IsWordSize : List ℕ → Type 0 where
  one : (a : ℕ) → IsWordSize (a ∷ [])
  two : (a b : ℕ) → IsWordSize (a ∷ b ∷ [])
  four : (a b c d : ℕ) → IsWordSize (a ∷ b ∷ c ∷ d ∷ [])
  eight : (a b c d e f g h : ℕ) → IsWordSize (a ∷ b ∷ c ∷ d ∷ e ∷ f ∷ g ∷ h ∷ [])

-- A swapping copy of 1, 2, 4 or 8 bytes stores them in reverse order.
pub memcpy_swap_bytes-reverse :
    {s : List ℕ} → IsWordSize s → memcpy_swap_bytes s (length s) ≡ reverse s
unfolding memcpy_swap_bytes
memcpy_swap_bytes-reverse (one a) = refl
memcpy_swap_bytes-reverse (two a b) = refl
memcpy_swap_bytes-reverse (four a b c d) = refl
memcpy_swap_bytes-reverse (eight a b c d e f g h) = refl

-- The two copies of the function do the same.
pub dwarf_ro_memcpy_swap_bytes-eq :
    (s : List ℕ) (len : ℕ) → dwarf_ro_memcpy_swap_bytes s len ≡ memcpy_swap_bytes s len
unfolding dwarf_ro_memcpy_swap_bytes memcpy_swap_bytes
dwarf_ro_memcpy_swap_bytes-eq s len = refl

-- The copy that a host takes for a file whose words start with the high byte, and for one whose
-- words start with the low byte.
unfoldable pub high_first_copy : Host → WordSwap
high_first_copy little_host = swapping
high_first_copy big_host = plain

unfoldable pub low_first_copy : Host → WordSwap
low_first_copy little_host = plain
low_first_copy big_host = swapping

-- Whatever the host, `ASNAR` with the host's copy for the file's byte order loads the number that
-- the 1, 2, 4 or 8 bytes are in that order.
pub asnar-value :
    (host : Host) {s : List ℕ}
    → IsWordSize s
    → (asnar host (high_first_copy host) s ≡ big_value_from 0 s)
      × (asnar host (low_first_copy host) s ≡ little_value s)
unfolding asnar copy_word memcpy_swap_bytes high_first_copy low_first_copy little_value
    big_value_from
asnar-value little_host (one a) = omega arith
asnar-value little_host (two a b) = omega arith
asnar-value little_host (four a b c d) = omega arith
asnar-value little_host (eight a b c d e f g h) = omega arith
asnar-value big_host (one a) = omega arith
asnar-value big_host (two a b) = omega arith
asnar-value big_host (four a b c d) = omega arith
asnar-value big_host (eight a b c d e f g h) = omega arith

-- One round of the loop, on a value of at most 56 bits.
magic_round :
    (rounds i : ℕ) (d : List ℕ) (v : ℕ)
    → v < 2 ^ 56
    → byte d i < 256
    → magic_loop (suc rounds) i d v ≡ magic_loop rounds (i + 1) d (v * 256 + byte d i)
unfolding magic_loop
magic_round rounds i d v h hb =
    let fits : v * 256 % 2 ^ 64 ≡ v * 256 = omega arith in rw (fits, bit_or_byte v _ hb)

-- The first two or four bytes, read by `magic_copy`, are the number with the first byte highest.
pub magic_copy-value :
    (a b c d : ℕ) (rest : List ℕ)
    → IsByte a
    → IsByte b
    → IsByte c
    → IsByte d
    → (magic_copy (a ∷ b ∷ rest) 2 ≡ a * 256 + b)
      × (magic_copy (a ∷ b ∷ c ∷ d ∷ rest) 4 ≡ ((a * 256 + b) * 256 + c) * 256 + d)
unfolding magic_copy
magic_copy-value a b c d rest ha hb hc hd = (
  magic_round 0 1 (a ∷ b ∷ rest) a (omega arith) hb,
  magic_round 2 1 (a ∷ b ∷ c ∷ d ∷ rest) a (omega arith) hb
      ∙ magic_round 1 2 (a ∷ b ∷ c ∷ d ∷ rest) (a * 256 + b) (omega arith) hc
      ∙ magic_round 0 3 (a ∷ b ∷ c ∷ d ∷ rest) ((a * 256 + b) * 256 + c) (omega arith) hd,
)

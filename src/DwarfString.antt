-- ===== src/DwarfString.antt =====
-- src/dwarf_string.c: a string buffer that grows. A string is the block that `s_data` points to
-- with the sizes kept beside it; `size_t` has 64 bits. A step outside a block is a fault, `none`;
-- TRUE and FALSE are the Boolean that comes with the string.
pub mod Holding
pub mod Content
pub mod Scan
pub mod Digits
pub mod Padding
pub mod Unsigned
pub mod Text
pub mod Signed
pub mod Sequence
use readelfobj_code.Base.{
  ℕ, ◌+◌, ◌-◌, Bool, true, false, ◌||◌, Option, none, some, List, [], ◌∷◌, length, ltb, leb, ◌==◌,
  if◌then◌else◌,
}
use readelfobj_code.Base.Memory.{◌>>=◌, poke, memcpy}
use readelfobj_code.Base.Words.{u64}

pub record Dwarfstring : Type 0 where
  pub s_data : List ℕ
  pub s_size : ℕ
  pub s_avail : ℕ
  pub s_malloc : Bool

-- `s_data` points to the literal "".
unfoldable pub dwarfstring_constructor : Dwarfstring
dwarfstring_constructor = record { s_data = 0 ∷ []; s_size = 0; s_avail = 0; s_malloc = false }

-- `s_size - s_avail`
abbrev pub dwarfstring_strlen : Dwarfstring → ℕ
dwarfstring_strlen g = u64 (g.s_size + 0x1_0000_0000_0000_0000 - g.s_avail)

-- `s_data` for a caller that reads a block.
abbrev pub dwarfstring_string : Dwarfstring → List ℕ
dwarfstring_string g = g.s_data

unfoldable pub dwarfstring_reset : Dwarfstring → Option (Dwarfstring × Bool)
dwarfstring_reset g =
    if g.s_size == 0
    then some (g, true)
    else (poke g.s_data 0 0 >>= λ b. some (record g { s_avail = g.s_size; s_data = b }, true))

unfoldable pub dwarfstring_constructor_static : List ℕ → ℕ → Option (Dwarfstring × Bool)
dwarfstring_constructor_static space len = poke space 0 0 >>= λ b.
    some (record { s_data = b; s_size = len; s_avail = len; s_malloc = false }, true)

-- The block is freed, if it was allocated, and the string is as constructed.
unfoldable pub dwarfstring_destructor : Dwarfstring → Dwarfstring
unfolding dwarfstring_constructor
dwarfstring_destructor g = dwarfstring_constructor

-- The copy at the end of `dwarfstring_append_length`, with `lastpos` from its start.
unfoldable pub append_copy : Dwarfstring → List ℕ → ℕ → ℕ → Option (Dwarfstring × Bool)
append_copy g str slen lastpos = memcpy g.s_data lastpos str slen >>= λ copied.
    let avail = u64 (g.s_avail + 0x1_0000_0000_0000_0000 - slen) in
    poke copied (u64 (g.s_size + 0x1_0000_0000_0000_0000 - avail)) 0 >>= λ ended.
    some (record g { s_data = ended; s_avail = avail }, true)

-- `malloc` is a block of the size asked for, or nothing for NULL. What it holds is not known.
module _ (malloc : ℕ → Option (List ℕ)) where
  unfoldable pub dwarfstring_add_to : Dwarfstring → ℕ → Option (Dwarfstring × Bool)
  dwarfstring_add_to g newlen =
      let lastpos = dwarfstring_strlen g in
      let malloclen = u64 (newlen + 1) in
      elim (malloc (if ltb malloclen 30 then 30 else malloclen)) [
        | none ↦ some (g, false)
        | some b ↦ (if ltb 0 lastpos then memcpy b 0 g.s_data lastpos else some b) >>= λ copied.
            poke copied lastpos 0 >>= λ ended. some (
              record {
                s_data = ended;
                s_size = newlen;
                s_avail = u64 (newlen + 0x1_0000_0000_0000_0000 - lastpos);
                s_malloc = true;
              },
              true,
            )
      ]

  unfoldable pub dwarfstring_constructor_fixed : ℕ → Option (Dwarfstring × Bool)
  unfolding dwarfstring_constructor dwarfstring_add_to
  dwarfstring_constructor_fixed len =
      if len == 0
      then some (dwarfstring_constructor, true)
      else dwarfstring_add_to dwarfstring_constructor len

  -- `str` is the block that the pointer points into, from there on; `none` is NULL.
  unfoldable pub dwarfstring_append_length :
      Dwarfstring → Option (List ℕ) → ℕ → Option (Dwarfstring × Bool)
  unfolding dwarfstring_add_to append_copy
  dwarfstring_append_length g none slen = some (g, true)
  dwarfstring_append_length g (some str) slen =
      let lastpos = dwarfstring_strlen g in
      if slen == 0
      then some (g, true)
      else if leb g.s_avail slen
      then (dwarfstring_add_to g (u64 (g.s_size + slen + 2)) >>= λ (grown, r).
          if r then append_copy grown str slen lastpos else some (grown, false))
      else append_copy g str slen lastpos

  -- `str` is a C string, given by its characters.
  unfoldable pub dwarfstring_append : Dwarfstring → Option (List ℕ) → Option (Dwarfstring × Bool)
  unfolding dwarfstring_append_length
  dwarfstring_append g none = some (g, true)
  dwarfstring_append g (some str) = dwarfstring_append_length g (some str) (length str)

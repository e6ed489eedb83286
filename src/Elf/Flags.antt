-- ===== src/Elf/Flags.antt =====
-- The tests on types, flags and names of sections of src/dwarf_load_elf_headers.c.
pub mod Bits
use readelfobj_code.Base.{
  ℕ, zero, suc, ◌+◌, ◌-◌, ◌/◌, Bool, true, false, ◌||◌, ◌&&◌, Option, none, some, List, [], ◌∷◌,
  bit_and, get_elem?, length, take, drop, ltb, leb, ◌==◌, if◌then◌else◌,
}
use readelfobj_code.Base.Memory.{◌>>=◌}
use readelfobj_code.Base.Text.{codes}

-- `SHT_NOBITS` is 8 and `SHT_NULL` is 0.
unfoldable pub is_empty_section : ℕ → Bool
is_empty_section type = if type == 8 then true else if type == 0 then true else false

abbrev pub nibblecounts : List ℕ
nibblecounts = 0 ∷ 1 ∷ 1 ∷ 2 ∷ 1 ∷ 2 ∷ 2 ∷ 3 ∷ 2 ∷ 2 ∷ 2 ∷ 3 ∷ 2 ∷ 3 ∷ 3 ∷ 4 ∷ []

-- The rounds of `while (v)`. None left, or an index outside the table, is `none`.
unfoldable pub count_nibbles : ℕ → ℕ → ℕ → Option ℕ
count_nibbles zero v bitscount = none
count_nibbles (suc rounds) v bitscount =
    if v == 0
    then some bitscount
    else (get_elem? nibblecounts (bit_and v 15) >>= λ bits.
        count_nibbles rounds (v / 16) (bitscount + bits))

-- Sixteen nibbles and the last test.
unfoldable pub getbitsoncount : ℕ → Option ℕ
unfolding count_nibbles
getbitsoncount v = count_nibbles 17 v 0

-- `!strcmp(a,b)`
unfoldable pub same_string : List ℕ → List ℕ → Bool
same_string [] [] = true
same_string [] (d ∷ b) = false
same_string (c ∷ a) [] = false
same_string (c ∷ a) (d ∷ b) = (c == d) && same_string a b

-- `!strncmp(a,b,n)`
abbrev pub same_start : List ℕ → List ℕ → ℕ → Bool
same_start a b n = same_string (take n a) (take n b)

unfoldable pub string_endswith : List ℕ → List ℕ → Bool
unfolding same_string
string_endswith n q =
    if ltb (length n) (length q) then false else same_string (drop (length n - length q) n) q

-- `SHT_GROUP` is 17.
unfoldable pub elf_sht_groupsec : ℕ → List ℕ → Bool
unfolding same_string
elf_sht_groupsec type sname = (type == 17) || same_string sname (codes ".group")

unfoldable pub elf_flagmatches : ℕ → ℕ → Bool
elf_flagmatches flagsword flag = bit_and flagsword flag == flag

-- The smaller and the larger one.
unfoldable pub smaller_of : ℕ → ℕ → ℕ × ℕ
smaller_of a b = if leb a b then (a, b) else (b, a)

unfoldable pub dwarf_load_elf_section_is_dwarf : List ℕ → Bool
unfolding same_string
dwarf_load_elf_section_is_dwarf sname =
    if same_start sname (codes ".rel") 4
    then false
    else if same_start sname (codes ".debug_") 7
    then true
    else if same_start sname (codes ".zdebug_") 8
    then true
    else if same_string sname (codes ".eh_frame")
    then true
    else same_start sname (codes ".gdb_index") 10

-- ===== src/DwarfString/Sequence.antt =====
-- The functions of src/dwarf_string.h called one after the other on one string.
pub mod Safe
use readelfobj_code.Base.{
  ℕ, ◌+◌, ◌^◌, ◌≤◌, ◌<◌, Bool, true, false, Option, none, some, List, [], ◌∷◌, length,
}
use readelfobj_code.Base.Memory.{◌>>=◌}
use readelfobj_code.DwarfString.{
  Dwarfstring, dwarfstring_reset, dwarfstring_destructor, dwarfstring_append_length,
  dwarfstring_append,
}
use readelfobj_code.DwarfString.Signed.{dwarfstring_append_printf_i}
use readelfobj_code.DwarfString.Text.{dwarfstring_append_printf_s}
use readelfobj_code.DwarfString.Unsigned.{dwarfstring_append_printf_u}

-- A call, with its arguments.
pub data Call : Type 0 where
  destructor reset : Call
  append_length : Option (List ℕ) → ℕ → Call
  append : Option (List ℕ) → Call
  append_printf_s : Option (List ℕ) → Option (List ℕ) → Call
  append_printf_i : Option (List ℕ) → ℕ → Call
  append_printf_u : Option (List ℕ) → ℕ → Call

module _ (malloc : ℕ → Option (List ℕ)) where
  unfoldable pub perform : Call → Dwarfstring → Option (Dwarfstring × Bool)
  perform destructor g = some (dwarfstring_destructor g, true)
  perform reset g = dwarfstring_reset g
  perform (append_length str slen) g = dwarfstring_append_length malloc g str slen
  perform (append str) g = dwarfstring_append malloc g str
  perform (append_printf_s format s) g = dwarfstring_append_printf_s malloc g format s
  perform (append_printf_i format v) g = dwarfstring_append_printf_i malloc g format v
  perform (append_printf_u format v) g = dwarfstring_append_printf_u malloc g format v

  -- The string after some calls, and their answers, the first call's first.
  unfoldable pub perform_all : List Call → Dwarfstring → Option (Dwarfstring × List Bool)
  unfolding perform
  perform_all [] g = some (g, [])
  perform_all (call ∷ calls) g = perform call g >>= λ (g', answer).
      perform_all calls g' >>= λ (last, answers). some (last, answer ∷ answers)

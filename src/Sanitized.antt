-- ===== src/Sanitized.antt =====
-- src/sanitized.c: strings made fit to print. A C string is the list of its characters as unsigned
-- values; the caller's buffer is a block of memory, and a step outside it is a fault, `none`.
-- The branches for _WIN32 are not modelled.
pub mod Escape
pub mod Room
pub mod Buffer
pub mod Calls
use readelfobj_code.Base.{
  ℕ, ◌+◌, ◌-◌, ◌/◌, ◌%◌, Bool, true, false, ◌&&◌, ◌||◌, Option, none, some, List, [], ◌∷◌, ◌++◌,
  length, ltb, leb, ◌==◌, if◌then◌else◌,
}
use readelfobj_code.Base.Memory.{◌>>=◌, poke, strcpy, strcat}
use readelfobj_code.Base.Text.{codes}
use readelfobj_code.Base.Words.{u32}

-- One digit of `%x`.
unfoldable pub hex_digit : ℕ → ℕ
hex_digit d = if ltb d 10 then 0x30 + d else 0x57 + d

-- `sprintf(smallbuf,"%%%02x",c & 0xff)`
unfoldable pub percent_hex : ℕ → List ℕ
unfolding hex_digit
percent_hex c = 0x25 ∷ hex_digit (c / 16 % 16) ∷ hex_digit (c % 16) ∷ []

abbrev pub truncated_marker : List ℕ
truncated_marker = codes "...Truncated..."

abbrev pub is_printable : ℕ → Bool
is_printable c = leb 0x20 c && leb c 0x7e

-- Out of room, or so the code fears.
unfoldable pub truncate : ℕ → List ℕ → ℕ → Option (List ℕ)
truncate len buffer charcount =
    if ltb (u32 (len + 0x1_0000_0000 - charcount)) (length truncated_marker)
    then poke buffer charcount 0
    else strcat buffer charcount truncated_marker >>= λ b. poke b charcount 0

-- The loop over the characters that are left. `len` and `charcount` are unsigned 32-bit numbers.
unfoldable pub insert_loop : ℕ → List ℕ → List ℕ → ℕ → Option (List ℕ)
unfolding truncate percent_hex
insert_loop len [] buffer charcount = poke buffer charcount 0
insert_loop len (c ∷ cp) buffer charcount =
    let escaped =
      strcpy buffer charcount (percent_hex c) >>= λ b. insert_loop len cp b (charcount + 3) in
    let plain = poke buffer charcount c >>= λ b. insert_loop len cp b (charcount + 1) in
    if ltb (u32 (len + 0x1_0000_0000 - 30)) charcount
    then truncate len buffer charcount
    else if c == 0x25
    then escaped
    else if is_printable c
    then plain
    else escaped

unfoldable pub do_sanity_insert : List ℕ → List ℕ → ℕ → Option (List ℕ)
unfolding insert_loop
do_sanity_insert s buffer len = insert_loop len s buffer 0

unfoldable pub no_questionable_chars : List ℕ → Bool
no_questionable_chars [] = true
no_questionable_chars (c ∷ cp) =
    let rest = no_questionable_chars cp in
    if c == 0x25
    then false
    else if is_printable c
    then rest
    else if c == 0x0a || c == 0x09
    then rest
    else if ltb c 0x20
    then false
    else if leb 0x7f c
    then false
    else rest

-- The pointer that `sanitized` returns: the string it was given, or the caller's buffer.
pub data Answer : Type 0 where
  original : List ℕ → Answer
  in_buffer : Answer

abbrev no_name : List ℕ
no_name = codes "<no-name!>"

-- `none` for the string is NULL. The answer comes with the buffer after the call.
unfoldable pub sanitized : Option (List ℕ) → List ℕ → ℕ → Option (Answer × List ℕ)
unfolding do_sanity_insert no_questionable_chars
sanitized none outbuf len =
    poke outbuf 0 0 >>= λ b. do_sanity_insert no_name b len >>= λ b'. some (in_buffer, b')
sanitized (some s) outbuf len = poke outbuf 0 0 >>= λ b.
    if no_questionable_chars s
    then some (original s, b)
    else (do_sanity_insert s b len >>= λ b'. some (in_buffer, b'))

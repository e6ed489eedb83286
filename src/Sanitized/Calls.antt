-- ===== src/Sanitized/Calls.antt =====
-- `sanitized` of src/sanitized.c, one call and a sequence of calls on one buffer, which is how the
-- programs use their static buffers.
use readelfobj_code.Base.{
  ℕ, zero, suc, ◌-◌, ◌≤◌, ◌<◌, ◌^◌, ◌≡◌, ◌⊎◌, inl, inr, refl, ◌∙◌, arith, Option, none, some, List,
  [], ◌∷◌, ◌++◌, map, get_or, length-set, length-replicate, get_or-set_ne, set, replicate, ◌==◌,
  if◌then◌else◌, Bool-cases, All, ap, false, length,
}
use readelfobj_code.Base.Memory.{◌>>=◌, poke}
use readelfobj_code.Base.Words.{IsByte}
use readelfobj_code.Sanitized.{
  Answer, original, in_buffer, do_sanity_insert, no_questionable_chars, no_name, sanitized,
}
use readelfobj_code.Sanitized.Escape.{
  escape_upto, IsSafe, IsPrintable, escape_upto-IsPrintable, no_questionable_chars_iff, escape_all,
  escape_upto-eq_all, unescape, unescape-escape_all,
}
use readelfobj_code.Sanitized.Room.{HasRoom}
use readelfobj_code.Sanitized.Buffer.{insert_loop-Written}

-- The C string at the start of a block.
unfoldable pub c_string : List ℕ → List ℕ
c_string [] = []
c_string (c ∷ mem) = if c == 0 then [] else c ∷ c_string mem

-- The string that an answer points to.
unfoldable pub shown : Answer → List ℕ → List ℕ
unfolding c_string
shown (original s) buffer = s
shown in_buffer buffer = c_string buffer

-- What `sanitized` is to show for a string.
unfoldable pub sanitized_text : ℕ → Option (List ℕ) → List ℕ
sanitized_text len none = escape_upto (len - 30) 0 no_name
sanitized_text len (some s) = if no_questionable_chars s then s else escape_upto (len - 30) 0 s

c_string-append : (text r : List ℕ) → All IsPrintable text → c_string (text ++ 0 ∷ r) ≡ text
unfolding c_string
c_string-append [] r h = refl
c_string-append (c ∷ text) r h = ground (arith, c_string-append text r h.1)

replicate_zero : (n i : ℕ) → i < n → get_or {A = ℕ} (replicate n 0) i 1 ≡ 0
replicate_zero zero i h = absurd (omega arith)
replicate_zero (suc n) zero h = refl
replicate_zero (suc n) (suc i) h = replicate_zero n i (omega arith)

module _ (len : ℕ) (hl : 58 ≤ len) (hw : len < 2 ^ 32) where
  zeroed_room : HasRoom len [] (replicate len 0)
  zeroed_room = record {
    size = omega (arith, length-replicate {A = ℕ} len 0);
    nul_at = len - 27;
    low = omega arith;
    high = omega arith;
    nul = replicate_zero len (len - 27) (omega arith);
  }

  cleared_room : (buffer : List ℕ) → HasRoom len [] buffer → HasRoom len [] (set buffer 0 0)
  cleared_room buffer room = record {
    size = omega (arith, length-set buffer 0 0, room.size);
    nul_at = room.nul_at;
    low = room.low;
    high = room.high;
    nul = get_or-set_ne buffer 0 room.nul_at 0 1 (omega (arith, room.low)) ∙ room.nul;
  }

  poke_start : (buffer : List ℕ) → HasRoom len [] buffer → poke buffer 0 0 ≡ some (set buffer 0 0)
  unfolding poke
  poke_start buffer room = ground (arith, room.size)

  -- The answer of one call, and the state of the buffer after it.
  abbrev Shows : Option (List ℕ) → Option (Answer × List ℕ) → Type 0
  Shows s result =
      (a : Answer) × (b : List ℕ) × (result ≡ some (a, b))
      × (shown a b ≡ sanitized_text len s)
      × HasRoom len [] b

  inserted :
      (s buffer : List ℕ)
      → HasRoom len [] buffer
      → (b : List ℕ) × (do_sanity_insert s buffer len ≡ some b)
        × (c_string b ≡ escape_upto (len - 30) 0 s)
        × HasRoom len [] b
  unfolding do_sanity_insert
  inserted s buffer room =
      let (r, e, room') = insert_loop-Written len hl hw s [] buffer room in
      let text = escape_upto (len - 30) 0 s in
      (text ++ 0 ∷ r, e, c_string-append text r (escape_upto-IsPrintable (len - 30) 0 s), room')

  sanitized-Shows :
      (s : Option (List ℕ)) (buffer : List ℕ)
      → HasRoom len [] buffer
      → Shows s (sanitized s buffer len)
  unfolding sanitized sanitized_text shown
  sanitized-Shows none buffer room =
      let (b, e, t, room') = inserted no_name (set buffer 0 0) (cleared_room buffer room) in
      (in_buffer, b, rw (poke_start buffer room, e), t, room')
  sanitized-Shows (some s) buffer room = elim (Bool-cases (no_questionable_chars s)) [
    | inl q ↦
        rw q
          (original s, set buffer 0 0, rw (poke_start buffer room), refl, cleared_room buffer room)
    | inr q ↦
        let (b, e, t, room') = inserted s (set buffer 0 0) (cleared_room buffer room) in
        rw q (in_buffer, b, rw (poke_start buffer room, e), t, room')
  ]

-- The strings shown by calls with one buffer, one after the other, each read before the next call.
unfoldable pub calls : ℕ → List (Option (List ℕ)) → List ℕ → Option (List (List ℕ))
calls len [] buffer = some []
calls len (s ∷ ss) buffer =
    sanitized s buffer len >>= λ (a, b). calls len ss b >>= λ texts. some (shown a b ∷ texts)

calls_room :
    (len : ℕ) (hl : 58 ≤ len) (hw : len < 2 ^ 32) (ss : List (Option (List ℕ))) (buffer : List ℕ)
    → HasRoom len [] buffer
    → calls len ss buffer ≡ some (map (sanitized_text len) ss)
unfolding calls
calls_room len hl hw [] buffer room = refl
calls_room len hl hw (s ∷ ss) buffer room =
    let (a, b, e, t, room') = sanitized-Shows len hl hw s buffer room in
    rw (e, calls_room len hl hw ss b room', t)

-- From a zeroed buffer of at least 58 bytes, whose size an unsigned 32-bit number holds, no sequence
-- of calls ever writes or reads outside the buffer, and each call shows the text meant for its
-- string: a string with nothing to escape itself, any other escaped up to the limit.
pub calls-map :
    (len : ℕ) (ss : List (Option (List ℕ)))
    → 58 ≤ len
    → len < 2 ^ 32
    → calls len ss (replicate len 0) ≡ some (map (sanitized_text len) ss)
calls-map len ss hl hw = calls_room len hl hw ss (replicate len 0) (zeroed_room len hl hw)

abbrev pub IsVisible : ℕ → Type 0
IsVisible c = (0x20 ≤ c) × (c ≤ 0x7e) ⊎ (c ≡ 0x0a) ⊎ (c ≡ 0x09)

IsVisible-of : (s : List ℕ) → All IsPrintable s → All IsVisible s
IsVisible-of [] h = tt
IsVisible-of (c ∷ s) h = (inl h.0, IsVisible-of s h.1)

IsVisible-safe : (s : List ℕ) → All IsSafe s → All IsVisible s
IsVisible-safe [] h = tt
IsVisible-safe (c ∷ s) h = (ground arith, IsVisible-safe s h.1)

sanitized_text-IsVisible : (len : ℕ) (s : Option (List ℕ)) → All IsVisible (sanitized_text len s)
unfolding sanitized_text
sanitized_text-IsVisible len none = IsVisible-of _ (escape_upto-IsPrintable (len - 30) 0 no_name)
sanitized_text-IsVisible len (some s) = elim (Bool-cases (no_questionable_chars s)) [
  | inl q ↦ rw q (IsVisible-safe s ((no_questionable_chars_iff s).0 q))
  | inr q ↦ rw q (IsVisible-of _ (escape_upto-IsPrintable (len - 30) 0 s))
]

texts-IsVisible :
    (len : ℕ) (ss : List (Option (List ℕ))) → All (All IsVisible) (map (sanitized_text len) ss)
texts-IsVisible len [] = tt
texts-IsVisible len (s ∷ ss) = (sanitized_text-IsVisible len s, texts-IsVisible len ss)

-- From a zeroed buffer of at least 58 bytes, whose size an unsigned 32-bit number holds, any
-- sequence of calls, for any strings, shows printable ASCII, newlines and tabs only.
pub calls-IsVisible :
    (len : ℕ) (ss : List (Option (List ℕ)))
    → 58 ≤ len
    → len < 2 ^ 32
    → (texts : List (List ℕ)) × (calls len ss (replicate len 0) ≡ some texts)
      × All (All IsVisible) texts
calls-IsVisible len ss hl hw =
    (map (sanitized_text len) ss, calls-map len ss hl hw, texts-IsVisible len ss)

-- A call for a string of bytes that has something to escape and whose escaped text has at most
-- `len - 30` characters shows a text that a reader of the escapes turns back into the string. The
-- buffer is zeroed, of at least 58 bytes, and its size is an unsigned 32-bit number.
pub unescape-calls :
    (len : ℕ) (s : List ℕ)
    → 58 ≤ len
    → len < 2 ^ 32
    → All IsByte s
    → no_questionable_chars s ≡ false
    → length (escape_all s) ≤ len - 30
    → (text : List ℕ) × (calls len (some s ∷ []) (replicate len 0) ≡ some (text ∷ []))
      × (unescape text ≡ s)
unfolding sanitized_text
unescape-calls len s hl hw hb q fits =
    let whole : sanitized_text len (some s) ≡ escape_all s =
      rw q (escape_upto-eq_all (len - 30) 0 s (omega arith)) in
    (
      escape_all s,
      calls-map len (some s ∷ []) hl hw ∙ ap (λ t. some (t ∷ [])) whole,
      unescape-escape_all s hb,
    )

-- ===== src/Sanitized/Buffer.antt =====
-- The writes of `do_sanity_insert` of src/sanitized.c into the caller's buffer.
use readelfobj_code.Base.{
  ℕ, zero, suc, ◌+◌, ◌-◌, ◌≤◌, ◌<◌, ◌^◌, ◌≡◌, inl, inr, refl, sym, ap, ◌∙◌, arith, true, false, not,
  ◌&&◌, Option, some, List, [], ◌∷◌, ◌++◌, length, length-append, length-drop, drop, get_or, ltb,
  ◌==◌, Bool-cases,
}
use mathlib.Core.List.{append_assoc}
use mathlib.Core.Path.{subst}
use readelfobj_code.Base.Memory.{poke, poke-append, store_all-append, strcpy}
use readelfobj_code.Base.Words.{u32}
use readelfobj_code.Sanitized.{percent_hex, is_printable, insert_loop}
use readelfobj_code.Sanitized.Escape.{escape_char, escape_upto}
use readelfobj_code.Sanitized.Room.{
  HasRoom, truncate-HasRoom, get_or-drop, length-percent_hex, nonempty, left_by,
}

module _ (len : ℕ) (c : ℕ) (cp out mem : List ℕ) (hl : 58 ≤ len) (hw : len < 2 ^ 32) where
  room_after_plain :
      HasRoom len out mem → length out + 30 ≤ len → HasRoom len (out ++ c ∷ []) (drop 1 mem)
  room_after_plain room h =
      let l1 = length-append out (c ∷ []) in
      let l2 = length-drop 1 mem in
      record {
        size = omega (arith, room.size);
        nul_at = room.nul_at - 1;
        low = omega (arith, room.low);
        high = omega (arith, room.high, room.low);
        nul = get_or-drop 1 (room.nul_at - 1) room.nul_at mem (omega (arith, room.low)) ∙ room.nul;
      }

  room_after_escape :
      HasRoom len out mem
      → length out + 30 ≤ len
      → HasRoom len (out ++ percent_hex c) (0 ∷ drop 4 mem)
  room_after_escape room h =
      let l1 = length-append out (percent_hex c) in
      let l2 = length-drop 4 mem in
      let l3 = length-percent_hex c in
      elim (Bool-cases (ltb (length out + 32) len)) [
        | inr near ↦ record {
          size = omega (arith, room.size);
          nul_at = 0;
          low = ground arith;
          high = omega arith;
          nul = refl;
        }
        | inl far ↦
            let f : length out + 32 < len = ground arith in
            record {
              size = omega (arith, room.size);
              nul_at = suc (room.nul_at - 4);
              low = omega (arith, room.low);
              high = omega (arith, room.high, room.low);
              nul =
                  get_or-drop 4 (room.nul_at - 4) room.nul_at mem (omega (arith, room.low))
                  ∙ room.nul;
            }
      ]

  poke_one :
      1 ≤ length mem → poke (out ++ mem) (length out) c ≡ some ((out ++ c ∷ []) ++ drop 1 mem)
  poke_one h =
      let (m, r, e) = nonempty mem h in
      rw e (poke-append out r m c ∙ ap some (sym (append_assoc out (c ∷ []) r)))

  strcpy_escape :
      4 ≤ length mem
      → strcpy (out ++ mem) (length out) (percent_hex c)
        ≡ some ((out ++ percent_hex c) ++ 0 ∷ drop 4 mem)
  unfolding strcpy percent_hex
  strcpy_escape h =
      store_all-append (percent_hex c ++ 0 ∷ []) out mem (length out) refl h
      ∙ ap some (sym (append_assoc out (percent_hex c) (0 ∷ drop 4 mem)))

  plain_step :
      length out + 30 ≤ len
      → 1 ≤ length mem
      → (not (c == 0x25) && is_printable c) ≡ true
      → insert_loop len (c ∷ cp) (out ++ mem) (length out)
        ≡ insert_loop len cp ((out ++ c ∷ []) ++ drop 1 mem) (length (out ++ c ∷ []))
  unfolding insert_loop
  plain_step h room e =
      let free : ltb (u32 (len + 0x1_0000_0000 - 30)) (length out) ≡ false = ground arith in
      let no_percent : (c == 0x25) ≡ false = ground arith in
      let printable : is_printable c ≡ true = ground arith in
      rw (free, no_percent, printable, poke_one room, length-append out (c ∷ []))

  escape_step :
      length out + 30 ≤ len
      → 4 ≤ length mem
      → (not (c == 0x25) && is_printable c) ≡ false
      → insert_loop len (c ∷ cp) (out ++ mem) (length out)
        ≡ insert_loop len cp
            ((out ++ percent_hex c) ++ 0 ∷ drop 4 mem)
            (length (out ++ percent_hex c))
  unfolding insert_loop
  escape_step h room e =
      let free : ltb (u32 (len + 0x1_0000_0000 - 30)) (length out) ≡ false = ground arith in
      let next = strcpy_escape room in
      let size : length (out ++ percent_hex c) ≡ length out + 3 =
        omega (arith, length-append out (percent_hex c), length-percent_hex c) in
      ground arith

  -- One round writes the text for one character and leaves room.
  insert_step :
      HasRoom len out mem
      → length out + 30 ≤ len
      → (insert_loop len (c ∷ cp) (out ++ mem) (length out)
          ≡ insert_loop len cp
              ((out ++ escape_char c) ++ left_by c mem)
              (length (out ++ escape_char c)))
        × HasRoom len (out ++ escape_char c) (left_by c mem)
  unfolding escape_char
  insert_step room h = elim (Bool-cases (not (c == 0x25) && is_printable c)) [
    | inl e ↦ rw e (plain_step h (omega (arith, room.size)) e, room_after_plain room h)
    | inr e ↦ rw e (escape_step h (omega (arith, room.size)) e, room_after_escape room h)
  ]

get_or-append : (out mem : List ℕ) (j : ℕ) → get_or (out ++ mem) (length out + j) 1 ≡ get_or mem j 1
get_or-append [] mem j = ap (λ n. get_or mem n 1) (omega arith)
get_or-append (o ∷ out) mem j =
    let shift : suc (length out) + j ≡ suc (length out + j) = omega arith in
    rw shift (get_or-append out mem j)

-- The parts put together.
whole_room : (len : ℕ) (out mem : List ℕ) → HasRoom len out mem → HasRoom len [] (out ++ mem)
whole_room len out mem room = record {
  size = omega (arith, room.size, length-append out mem);
  nul_at = length out + room.nul_at;
  low = omega (arith, room.low);
  high = omega (arith, room.high);
  nul = get_or-append out mem room.nul_at ∙ room.nul;
}

-- What the loop ends with: `text` and a NUL behind what was written, and a buffer fit for another
-- call.
abbrev pub Written : ℕ → List ℕ → List ℕ → Option (List ℕ) → Type 0
Written len out text result =
    (r : List ℕ) × (result ≡ some (out ++ (text ++ 0 ∷ r)))
    × HasRoom len [] (out ++ (text ++ 0 ∷ r))

Written-append :
    (len : ℕ) (out e text : List ℕ) (result : Option (List ℕ))
    → Written len (out ++ e) text result
    → Written len out (e ++ text) result
Written-append len out e text result (r, s, room) =
    let same : (out ++ e) ++ (text ++ 0 ∷ r) ≡ out ++ ((e ++ text) ++ 0 ∷ r) =
      append_assoc out e (text ++ 0 ∷ r) ∙ ap (◌++◌ out) (sym (append_assoc e text (0 ∷ r))) in
    (r, s ∙ ap some same, subst (HasRoom len []) same room)

module _ (len : ℕ) (hl : 58 ≤ len) (hw : len < 2 ^ 32) where
  insert_end :
      (out mem : List ℕ)
      → HasRoom len out mem
      → Written len out [] (insert_loop len [] (out ++ mem) (length out))
  unfolding insert_loop
  insert_end out mem room =
      let stored = poke_one len 0 [] out mem hl hw (omega (arith, room.size, room.high)) in
      (
        drop 1 mem,
        stored ∙ ap some (append_assoc out (0 ∷ []) (drop 1 mem)),
        whole_room len out (0 ∷ drop 1 mem) (ended room.nul_at room.low room.high room.nul),
      )
    where
      ended :
          (i : ℕ)
          → len ≤ length out + i + 29
          → length out + i + 27 ≤ len
          → get_or mem i 1 ≡ 0
          → HasRoom len out (0 ∷ drop 1 mem)
      ended zero low high nul = record {
        size = omega (arith, room.size, room.high, length-drop 1 mem);
        nul_at = 0;
        low = low;
        high = high;
        nul = refl;
      }
      ended (suc i) low high nul = record {
        size = omega (arith, room.size, room.high, length-drop 1 mem);
        nul_at = suc i;
        low = low;
        high = high;
        nul = get_or-drop 1 i (suc i) mem (omega arith) ∙ nul;
      }

  insert_full :
      (c : ℕ) (cp out mem : List ℕ)
      → HasRoom len out mem
      → len < length out + 30
      → Written len out [] (insert_loop len (c ∷ cp) (out ++ mem) (length out))
  unfolding insert_loop
  insert_full c cp out mem room h =
      let full : ltb (u32 (len + 0x1_0000_0000 - 30)) (length out) ≡ true = ground arith in
      let (r, t, k) = truncate-HasRoom len out mem hl hw room in
      (
        r,
        rw full t,
        whole_room len out (0 ∷ r) (record {
          size = omega (arith, room.size);
          nul_at = 0;
          low = omega arith;
          high = omega (arith, room.high);
          nul = refl;
        }),
      )

  -- With room in the buffer the loop never leaves it: behind what was written it leaves the escaped
  -- text, up to the limit, and a NUL, and the buffer is fit for another call.
  pub insert_loop-Written :
      (s out mem : List ℕ)
      → HasRoom len out mem
      → Written len out
          (escape_upto (len - 30) (length out) s)
          (insert_loop len s (out ++ mem) (length out))
  unfolding escape_upto
  insert_loop-Written [] out mem room = insert_end out mem room
  insert_loop-Written (c ∷ cp) out mem room = elim (Bool-cases (ltb (len - 30) (length out))) [
    | inl full ↦ rw full (insert_full c cp out mem room (ground arith))
    | inr free ↦
        let (e, room') = insert_step len c cp out mem hl hw room (ground arith) in
        let next = insert_loop-Written cp (out ++ escape_char c) (left_by c mem) room' in
        let result =
          insert_loop len cp ((out ++ escape_char c) ++ left_by c mem)
            (length (out ++ escape_char c)) in
        let moved =
          subst (λ n. Written len (out ++ escape_char c) (escape_upto (len - 30) n cp) result)
            (length-append out (escape_char c)) next in
        rw (free, e) (Written-append len out (escape_char c) _ _ moved)
  ]

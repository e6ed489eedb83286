-- ===== src/Sanitized/Room.antt =====
-- Room in the caller's buffer of src/sanitized.c, and what a truncation does with it.
use readelfobj_code.Base.{
  ℕ, zero, suc, ◌+◌, ◌-◌, ◌≤◌, ◌<◌, ◌^◌, ◌≡◌, inl, inr, refl, sym, ap, ◌∙◌, arith, false, not, ◌&&◌,
  some, List, [], ◌∷◌, ◌++◌, length, length-append, length-take, length-drop, take, drop, get_or,
  ltb, ◌==◌, if◌then◌else◌, Bool-cases,
}
use mathlib.Core.List.{append_assoc}
use readelfobj_code.Base.Memory.{
  poke_first, store_all, store_all-append, strlen, strcat, drop-append,
}
use readelfobj_code.Base.Words.{u32}
use readelfobj_code.Sanitized.{percent_hex, is_printable, truncated_marker, truncate}

-- A buffer of `len` bytes, its first part `out` written, that has a NUL between 29 and 27 bytes
-- before its end, in the part `mem` that is left.
pub record HasRoom (len : ℕ) (out mem : List ℕ) : Type 0 where
  pub size : length out + length mem ≡ len
  pub nul_at : ℕ
  pub low : len ≤ length out + nul_at + 29
  pub high : length out + nul_at + 27 ≤ len
  pub nul : get_or mem nul_at 1 ≡ 0

strlen_found :
    (mem : List ℕ) (i : ℕ) → get_or mem i 1 ≡ 0 → (n : ℕ) × (strlen mem ≡ some n) × (n ≤ i)
unfolding strlen
strlen_found [] i h = absurd (omega arith)
strlen_found (c ∷ mem) zero h = (0, ground arith, omega arith)
strlen_found (c ∷ mem) (suc i) h = elim (Bool-cases (c == 0)) [
  | inl e ↦ (0, rw e, omega arith)
  | inr e ↦ let (n, r, le) = strlen_found mem i h in (suc n, rw (e, r), omega arith)
]

pub nonempty : (xs : List ℕ) → 1 ≤ length xs → (x : ℕ) × (r : List ℕ) × (xs ≡ x ∷ r)
nonempty [] h = absurd (omega arith)
nonempty (x ∷ r) h = (x, r, refl)

take-drop : (n : ℕ) (xs : List ℕ) → take n xs ++ drop n xs ≡ xs
take-drop zero xs = refl
take-drop (suc n) [] = refl
take-drop (suc n) (x ∷ xs) = ap (◌∷◌ x) (take-drop n xs)

-- `strcat` behind the part `out`, where the string there ends early enough.
strcat_room :
    (out mem str : List ℕ) (n : ℕ)
    → strlen mem ≡ some n
    → n + suc (length str) ≤ length mem
    → (mem' : List ℕ) × (strcat (out ++ mem) (length out) str ≡ some (out ++ mem'))
      × (length mem' ≡ length mem)
unfolding strcat
strcat_room out mem str n e h =
    let back = drop n mem in
    let mark = str ++ 0 ∷ [] in
    let left = take n mem ++ (mark ++ drop (length mark) back) in
    let l1 = length-take n mem in
    let l2 = length-drop n mem in
    let l3 = length-append str (0 ∷ []) in
    let l4 = length-append out (take n mem) in
    let split : out ++ mem ≡ (out ++ take n mem) ++ back =
      ap (◌++◌ out) (sym (take-drop n mem)) ∙ sym (append_assoc out (take n mem) back) in
    let stored =
      store_all-append mark (out ++ take n mem) back (length out + n) (omega arith) (omega arith) in
    let rest = mark ++ drop (length mark) back in
    let l5 = length-append (take n mem) rest in
    let l6 = length-append mark (drop (length mark) back) in
    let l7 = length-drop (length mark) back in
    (
      left,
      rw (drop-append out mem, e)
          (ap (λ b. store_all b (length out + n) mark) split
            ∙ stored
            ∙ ap some (append_assoc out (take n mem) rest)),
      omega arith,
    )

-- The marker of a truncation is written inside the buffer, and then cut off.
pub truncate-HasRoom :
    (len : ℕ) (out mem : List ℕ)
    → 58 ≤ len
    → len < 2 ^ 32
    → HasRoom len out mem
    → (r : List ℕ) × (truncate len (out ++ mem) (length out) ≡ some (out ++ 0 ∷ r))
      × (suc (length r) ≡ length mem)
unfolding truncate
truncate-HasRoom len out mem hl hw room =
    let left_ok : ltb (u32 (len + 0x1_0000_0000 - length out)) 15 ≡ false =
      ground (arith, room.size, room.high) in
    let (n, e, le) = strlen_found mem room.nul_at room.nul in
    let (mem', s, l) =
      strcat_room out mem truncated_marker n e (omega (arith, room.size, room.high)) in
    let (r, p, k) = poke_first out mem' (length out) 0 refl (omega (arith, room.size, room.high)) in
    (r, rw (left_ok, s) p, omega arith)

pub get_or-drop : (k i j : ℕ) (mem : List ℕ) → k + i ≡ j → get_or (drop k mem) i 1 ≡ get_or mem j 1
get_or-drop zero i j mem e = ap (λ n. get_or mem n 1) (omega arith)
get_or-drop (suc k) i zero mem e = absurd (omega arith)
get_or-drop (suc k) i (suc j) [] e = refl
get_or-drop (suc k) i (suc j) (m ∷ mem) e = get_or-drop k i j mem (omega arith)

pub length-percent_hex : (c : ℕ) → length (percent_hex c) ≡ 3
unfolding percent_hex
length-percent_hex c = refl

-- What one round leaves behind the text that it has written.
abbrev pub left_by : ℕ → List ℕ → List ℕ
left_by c mem = if not (c == 0x25) && is_printable c then drop 1 mem else 0 ∷ drop 4 mem

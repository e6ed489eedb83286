-- ===== src/Base/Memory.antt =====
-- Blocks of memory as lists of bytes, lowest address first. A step that reads or writes outside
-- its block is a fault, `none`.
use Prim.Native.Nat.{ℕ, zero, suc, ◌+◌, ◌≤◌}
use mathlib.Core.Path.{◌≡◌, refl, ap, ◌∙◌}
use mathlib.Core.List.{List, [], ◌∷◌, ◌++◌, append_assoc, append-nil}
use mathlib.Core.Bool.{Bool, true}
use mathlib.Core.Option.{Option, none, some}
use native.Mathlib.Omega.{arith}
use readelfobj_code.Base.Lists.{
  length, length-append, length-take, length-drop, take, drop, set, empty_list,
}
use readelfobj_code.Base.Tests.{ltb, leb, ◌==◌, if◌then◌else◌}

infixl 5 ◌>>=◌
abbrev pub ◌>>=◌ {ℓ κ} : {A : Type ℓ} {B : Type κ} → Option A → (A → Option B) → Option B
none >>= f = none
some a >>= f = f a

pub >>=-eq-some {ℓ κ} :
    {A : Type ℓ} {B : Type κ} (m : Option A) (f : A → Option B) {b : B}
    → (m >>= f) ≡ some b
    → (a : A) × (m ≡ some a) × (f a ≡ some b)
>>=-eq-some (some a) f h = (a, refl, h)
>>=-eq-some none f h = cc

-- An array of `n` structures: how many elements it has, when there is memory for it.
abbrev pub array_of : (ℕ → Bool) → ℕ → Option ℕ
array_of has_room n = if has_room n then some n else none

-- The elements of an array that are behind its first. An array with none left has no first element,
-- and a write to it is a fault.
abbrev pub next_element : ℕ → Option ℕ
next_element zero = none
next_element (suc left) = some left

-- `buf[i] = v`
unfoldable pub poke : List ℕ → ℕ → ℕ → Option (List ℕ)
poke buf i v = if ltb i (length buf) then some (set buf i v) else none

-- The bytes `xs` stored from index `i` on, one after the other: `memcpy(buf+i,xs,…)`.
unfoldable pub store_all : List ℕ → ℕ → List ℕ → Option (List ℕ)
store_all buf i [] = some buf
store_all buf i (x ∷ xs) = poke buf i x >>= λ b. store_all b (i + 1) xs

-- `strcpy(buf+i,str)` for the C string `str`.
unfoldable pub strcpy : List ℕ → ℕ → List ℕ → Option (List ℕ)
strcpy buf i str = store_all buf i (str ++ 0 ∷ [])

-- The length of the C string that starts a block. A block with no NUL is a fault.
unfoldable pub strlen : List ℕ → Option ℕ
strlen [] = none
strlen (c ∷ mem) = if c == 0 then some 0 else strlen mem >>= λ n. some (suc n)

-- `strcat(buf+i,str)`
unfoldable pub strcat : List ℕ → ℕ → List ℕ → Option (List ℕ)
unfolding strlen strcpy
strcat buf i str = strlen (drop i buf) >>= λ n. strcpy buf (i + n) str

set-append : (out mem : List ℕ) (x v : ℕ) → set (out ++ x ∷ mem) (length out) v ≡ out ++ v ∷ mem
set-append [] mem x v = refl
set-append (o ∷ out) mem x v = ap (◌∷◌ o) (set-append out mem x v)

-- A write behind the part `out` of a block.
pub poke-append :
    (out mem : List ℕ) (x v : ℕ) → poke (out ++ x ∷ mem) (length out) v ≡ some (out ++ v ∷ mem)
unfolding poke
poke-append out mem x v = ground (arith, length-append out (x ∷ mem), set-append out mem x v)

-- A write at the start of the part of a block that is left.
pub poke_first :
    (out mem : List ℕ) (i v : ℕ)
    → i ≡ length out
    → 1 ≤ length mem
    → (r : List ℕ) × (poke (out ++ mem) i v ≡ some (out ++ v ∷ r)) × (suc (length r) ≡ length mem)
poke_first out [] i v e h = absurd (omega arith)
poke_first out (m ∷ mem) i v e h = (mem, rw e (poke-append out mem m v), refl)

-- Bytes stored behind the part `out` of a block that has room for them.
pub store_all-append :
    (xs out mem : List ℕ) (i : ℕ)
    → i ≡ length out
    → length xs ≤ length mem
    → store_all (out ++ mem) i xs ≡ some (out ++ (xs ++ drop (length xs) mem))
unfolding store_all
store_all-append [] out mem i e h = refl
store_all-append (x ∷ xs) out [] i e h = absurd (omega arith)
store_all-append (x ∷ xs) out (m ∷ mem) i e h =
    let next =
      store_all-append xs (out ++ x ∷ []) mem (i + 1) (omega (arith, length-append out (x ∷ [])))
        (omega arith) in
    rw (e, poke-append out mem m x)
      (rw (← e) (
        rw (append_assoc out (x ∷ []) mem, append_assoc out (x ∷ []) (xs ++ drop (length xs) mem))
          at next))

-- Bytes that fill a block.
pub store_all-whole :
    (block out : List ℕ) → length out ≡ length block → store_all block 0 out ≡ some out
store_all-whole block out e =
    let nothing =
      empty_list (drop (length out) block) (omega (arith, length-drop (length out) block)) in
    store_all-append out [] block 0 refl (omega arith)
    ∙ ap (λ r. some (out ++ r)) nothing
    ∙ ap some (append-nil out)

pub drop-append : (out mem : List ℕ) → drop (length out) (out ++ mem) ≡ mem
drop-append [] mem = refl
drop-append (o ∷ out) mem = drop-append out mem

-- `memcpy(dest+i,src,n)`
unfoldable pub memcpy : List ℕ → ℕ → List ℕ → ℕ → Option (List ℕ)
unfolding store_all
memcpy dest i src n = if leb n (length src) then store_all dest i (take n src) else none

-- A copy behind the part `out` of a block that has room for it.
pub memcpy-append :
    (src out mem : List ℕ) (i n : ℕ)
    → i ≡ length out
    → n ≤ length src
    → n ≤ length mem
    → memcpy (out ++ mem) i src n ≡ some (out ++ (take n src ++ drop n mem))
unfolding memcpy
memcpy-append src out mem i n e h k =
    let ok : leb n (length src) ≡ true = ground arith in
    let size : length (take n src) ≡ n = omega (arith, length-take n src) in
    let stored = store_all-append (take n src) out mem i e (omega arith) in
    rw ok (rw size at stored)

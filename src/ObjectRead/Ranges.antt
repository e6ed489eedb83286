-- ===== src/ObjectRead/Ranges.antt =====
-- What the readers of src/dwarf_object_read_common.c and src/dwarf_object_detector.c guarantee
-- about the range that is read.
use native.Mathlib.Nat.{mul-le-mul_left}
use readelfobj_code.Base.{
  drop-drop, take-drop-take, ◌*◌, ◌∙◌, ℕ, ◌+◌, ◌-◌, ◌^◌, ◌≤◌, ◌<◌, ◌≡◌, refl, ap, arith, min, List,
  Option, none, some,
}
use readelfobj_code.Base.{length, take, drop, length-take, length-drop, ltb, leb, if◌then◌else◌}
use readelfobj_code.Base.Words.{IsU64}
use readelfobj_code.Codes.{ok, err, seek_off_end, read_off_end}
use readelfobj_code.ObjectRead.{
  Descriptor, IsFile, read_exactly, seek_and_read, dwarf_object_read_random, object_read_random,
}

-- The `size` bytes of the file from `loc` on.
abbrev pub slice : List ℕ → ℕ → ℕ → List ℕ
slice bytes loc size = take size (drop loc bytes)

pub length-slice :
    (bytes : List ℕ) (loc size : ℕ) → length (slice bytes loc size) ≡ min size (length bytes - loc)
length-slice bytes loc size =
    omega (arith, length-take size (drop loc bytes), length-drop loc bytes)

read_exactly-ok :
    (r : Option (List ℕ)) (size : ℕ) {out : List ℕ}
    → read_exactly r size ≡ ok out
    → (r ≡ some out) × (length out ≡ size)
read_exactly-ok none size h = cc
read_exactly-ok (some x) size h = (ground arith, ground arith)

seek_and_read-ok :
    (fd : Descriptor) (loc size : ℕ) (sought : Option ℕ) {out : List ℕ}
    → fd.lseek_set loc ≡ sought
    → seek_and_read fd loc size ≡ ok out
    → (pos : ℕ) × (fd.lseek_set loc ≡ some pos)
      × (fd.read pos size ≡ some out)
      × (length out ≡ size)
seek_and_read-ok fd loc size none e h = absurd (cc (rw (e, seek_and_read) at h))
seek_and_read-ok fd loc size (some pos) e h =
    let (r, n) = read_exactly-ok (fd.read pos size) size (rw (e, seek_and_read) at h) in
    (pos, e, r, n)

-- One of the parts of a slice.
pub take-slice :
    (bytes : List ℕ) (offset n size count i : ℕ)
    → i < count
    → size * count ≤ n
    → take size (drop (size * i) (slice bytes offset n)) ≡ slice bytes (offset + size * i) size
take-slice bytes offset n size count i less many =
    let below : i + 1 ≤ count = omega arith in
    let up = mul-le-mul_left size below in
    take-drop-take size (size * i) n (drop offset bytes) (omega (arith, up))
    ∙ ap (take size) (drop-drop (size * i) offset bytes)

module _ (fd : Descriptor) (bytes : List ℕ) (file : IsFile fd bytes) where
  seek_and_read-slice :
      (loc size : ℕ) (out : List ℕ)
      → seek_and_read fd loc size ≡ ok out
      → (out ≡ slice bytes loc size) × (length out ≡ size)
  seek_and_read-slice loc size out h =
      let (pos, s, r, n) = seek_and_read-ok fd loc size _ refl h in
      (ground (arith, file.seeks_there loc pos s, file.reads_bytes pos size out r), n)

  seek_and_read-inside :
      (loc size : ℕ)
      → size ≤ 0x7fff_f000
      → loc + size ≤ length bytes
      → seek_and_read fd loc size ≡ ok (slice bytes loc size)
  seek_and_read-inside loc size small h =
      ground (
        arith,
        file.seeks loc,
        file.reads_all loc size,
        length-slice bytes loc size,
        file.end_signed,
      )

  -- When `object_read_random` succeeds on a file, it returns exactly the `size` bytes of the file
  -- from `loc` on, `loc` is below the size passed in, and all of the bytes lie inside the file. The
  -- size asked for is not bounded.
  pub object_read_random-slice :
      (loc size filesize : ℕ) (out : List ℕ)
      → object_read_random fd loc size filesize ≡ ok out
      → (out ≡ slice bytes loc size)
        × (length out ≡ size)
        × (loc < filesize)
        × (size ≤ length bytes - loc)
  unfolding object_read_random
  object_read_random-slice loc size filesize out h =
      let k : seek_and_read fd loc size ≡ ok out = ground arith in
      let (s, n) = seek_and_read-slice loc size out k in
      (s, n, ground arith, omega (arith, ap length s, n, length-slice bytes loc size))

  -- On a file of the size passed in, `object_read_random` of up to 0x7ffff000 bytes at a 64-bit
  -- position answers as follows: a position at or behind the end is `RO_SEEK_OFF_END`, else a range that leaves the
  -- file is `RO_READ_OFF_END`, and any other range is read.
  pub object_read_random_lem :
      (loc size : ℕ)
      → IsU64 loc
      → size ≤ 0x7fff_f000
      → object_read_random fd loc size (length bytes) ≡ (
          if leb (length bytes) loc
          then err seek_off_end
          else if ltb (length bytes) (loc + size)
          then err read_off_end
          else ok (slice bytes loc size))
  unfolding object_read_random
  object_read_random_lem loc size hl hs =
      ground (arith, seek_and_read-inside loc size hs, file.end_signed)

  -- A read that succeeds returns bytes of the file.
  pub dwarf_object_read_random-slice :
      (loc size filesize : ℕ) (out : List ℕ)
      → dwarf_object_read_random fd loc size filesize ≡ ok out
      → (out ≡ slice bytes loc size) × (length out ≡ size)
  unfolding dwarf_object_read_random
  dwarf_object_read_random-slice loc size filesize out h =
      let k : seek_and_read fd loc size ≡ ok out = ground arith in
      seek_and_read-slice loc size out k

  pub dwarf_object_read_random-inside :
      (loc size : ℕ)
      → 1 ≤ size
      → size ≤ 0x7fff_f000
      → loc + size ≤ length bytes
      → dwarf_object_read_random fd loc size (length bytes) ≡ ok (slice bytes loc size)
  unfolding dwarf_object_read_random
  dwarf_object_read_random-inside loc size some_bytes small h =
      ground (arith, seek_and_read-inside loc size small h, file.end_signed)

-- For a position and a size whose sum is below 2^63, and a file size below 2^63,
-- `dwarf_object_read_random`, with signed tests, answers as `object_read_random` does, with unsigned
-- ones.
pub dwarf_object_read_random-eq :
    (fd : Descriptor) (loc size filesize : ℕ)
    → loc + size < 2 ^ 63
    → filesize < 2 ^ 63
    → dwarf_object_read_random fd loc size filesize ≡ object_read_random fd loc size filesize
unfolding dwarf_object_read_random object_read_random
dwarf_object_read_random-eq fd loc size filesize hs hf = ground arith

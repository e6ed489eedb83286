-- ===== src/ObjectRead.antt =====
-- The readers of a file at an offset: `dwarf_object_read_random` of
-- src/dwarf_object_read_common.c, and `object_read_random` of src/dwarf_object_detector.c, which is
-- the same text with unsigned tests. The system calls are the fields of `Descriptor`.
pub mod Ranges
use readelfobj_code.Base.{ℕ, ◌+◌, ◌≤◌, ◌<◌, ◌^◌, ◌≡◌, Option, none, some, List}
use readelfobj_code.Base.{length, take, drop, ltb, leb, ◌==◌, if◌then◌else◌}
use readelfobj_code.Base.Words.{u64, ltb_signed, leb_signed}
use readelfobj_code.Codes.{Result, ok, err, ErrCode, seek_off_end, read_off_end, err_seek, err_read}

-- An open file as the program sees it. `none` is the -1 that the call returns on failure; an
-- `off_t` is its 64-bit pattern. `read p n` is what `read(fd,buf,n)` stores at file position `p`.
pub record Descriptor : Type 0 where
  pub lseek_end : Option ℕ
  pub lseek_set : ℕ → Option ℕ
  pub read : ℕ → ℕ → Option (List ℕ)

-- What POSIX says of a descriptor of a regular file that holds `bytes`: a seek to a position that
-- is not negative succeeds there, any bytes that are read stand in the file at the position, and
-- a read inside the file of up to 0x7ffff000 bytes gets them all.
pub record IsFile (fd : Descriptor) (bytes : List ℕ) : Type 0 where
  pub end_at : fd.lseek_end ≡ some (length bytes)
  pub end_signed : length bytes < 2 ^ 63
  pub seeks : (loc : ℕ) → loc < 2 ^ 63 → fd.lseek_set loc ≡ some loc
  pub seeks_there : (loc pos : ℕ) → fd.lseek_set loc ≡ some pos → pos ≡ loc
  pub reads_bytes :
      (pos n : ℕ) (out : List ℕ)
      → fd.read pos n ≡ some out
      → out ≡ take (length out) (drop pos bytes)
  pub reads_all :
      (pos n : ℕ)
      → n ≤ 0x7fff_f000
      → pos + n ≤ length bytes
      → fd.read pos n ≡ some (take n (drop pos bytes))

-- `rcode == -1 || (size_t)rcode != size`
abbrev pub read_exactly : Option (List ℕ) → ℕ → Result (List ℕ)
read_exactly none size = err err_read
read_exactly (some out) size = if length out == size then ok out else err err_read

-- The seek and the read that both functions end with.
abbrev pub seek_and_read : Descriptor → ℕ → ℕ → Result (List ℕ)
seek_and_read fd loc size = elim (fd.lseek_set loc) [
  | none ↦ err err_seek
  | some pos ↦ read_exactly (fd.read pos size) size
]

unfoldable pub dwarf_object_read_random : Descriptor → ℕ → ℕ → ℕ → Result (List ℕ)
dwarf_object_read_random fd loc size filesize =
    let endpoint = u64 (loc + size) in
    if leb_signed filesize loc
    then err seek_off_end
    else if ltb_signed filesize endpoint
    then err read_off_end
    else seek_and_read fd loc size

unfoldable pub object_read_random : Descriptor → ℕ → ℕ → ℕ → Result (List ℕ)
object_read_random fd loc size filesize =
    let endpoint = u64 (loc + size) in
    if leb filesize loc
    then err seek_off_end
    else if ltb filesize endpoint
    then err read_off_end
    else seek_and_read fd loc size

-- ===== src/Tests/Runs.antt =====
-- The object file and string theorems at concrete inputs.
use readelfobj_code.Base.{
  ℕ, ◌+◌, ◌-◌, ◌≤◌, ◌<◌, ◌≡◌, ◌↔◌, refl, arith, List, [], ◌∷◌, ◌++◌, Option, none, some, length,
  replicate, All, true, ◌==◌, if◌then◌else◌,
}
use readelfobj_code.Base.Text.{codes}
use readelfobj_code.Base.Words.{IsByte}
use readelfobj_code.Bytes.{little_host, big_host}
use readelfobj_code.Codes.{ok}
use readelfobj_code.Detector.{
  endian_little, endian_unknown, Detected, ftype_elf, classify_header, fill_in_elf_fields,
  is_elf_ident, is_mach_o_magic, dwarf_object_detector_fd, dwarf_object_detector_fd_a, is_pe_object,
}
use readelfobj_code.Detector.Signature.{Describes, IsPe, IsElf, IsMachO}
use readelfobj_code.Detector.Sound.{
  dwarf_object_detector_fd_iff, dwarf_object_detector_fd_a-Describes,
}
use readelfobj_code.Detector.Pe.{is_pe_object_iff}
use readelfobj_code.Detector.Magic.{is_mach_o_magic_iff, fill_in_elf_fields_iff}
use readelfobj_code.Detector.Path.{getbasename, detector_path_out}
use readelfobj_code.Detector.Path.Names.{
  IsBaseName, getbasename-IsBaseName, opened_result, detector_path_out_lem,
}
use readelfobj_code.ObjectRead.{Descriptor, object_read_random, dwarf_object_read_random}
use readelfobj_code.ObjectRead.Ranges.{
  slice, object_read_random_lem, object_read_random-slice, dwarf_object_read_random-eq,
}
use readelfobj_code.Tests.Files.{file_descriptor, file_descriptor-IsFile}

-- A little-endian 64-bit Elf object of 26 bytes.
abbrev elf_file : List ℕ
elf_file = 0x7f ∷ 0x45 ∷ 0x4c ∷ 0x46 ∷ 2 ∷ 1 ∷ 1 ∷ replicate 19 0

elf_file-bytes : All IsByte elf_file
elf_file-bytes = ground arith

abbrev elf_detected : Detected
elf_detected = record { ftype = ftype_elf; endian = endian_little; offsetsize = 64; filesize = 26 }

dwarf_object_detector_fd_iff_example :
    (dwarf_object_detector_fd little_host (file_descriptor elf_file) endian_unknown 0
      ≡ ok elf_detected)
    ↔ (24 < 26)
      × (◌≡◌ {A = ℕ} 26 26)
      × Describes elf_file (slice elf_file 0 24) endian_unknown 0 elf_detected ftype_elf
dwarf_object_detector_fd_iff_example =
    dwarf_object_detector_fd_iff little_host (file_descriptor elf_file) elf_file endian_unknown 0
      elf_detected (file_descriptor-IsFile elf_file (omega arith)) elf_file-bytes

-- The same object behind four other bytes.
abbrev shifted_file : List ℕ
shifted_file = 1 ∷ 2 ∷ 3 ∷ 4 ∷ elf_file

shifted_detected : Detected
shifted_detected = record {
  ftype = ftype_elf;
  endian = endian_little;
  offsetsize = 64;
  filesize = 30;
}

shifted_run :
    dwarf_object_detector_fd_a big_host (file_descriptor shifted_file) endian_unknown 0 4
    ≡ ok shifted_detected
unfolding dwarf_object_detector_fd_a file_descriptor shifted_detected classify_header
    fill_in_elf_fields
shifted_run = refl

dwarf_object_detector_fd_a-Describes_example :
    (4 + 24 < 30)
    × (◌≡◌ {A = ℕ} 30 30)
    × Describes shifted_file (slice shifted_file 4 24) endian_unknown 0 shifted_detected ftype_elf
unfolding shifted_detected
dwarf_object_detector_fd_a-Describes_example =
    dwarf_object_detector_fd_a-Describes big_host (file_descriptor shifted_file) shifted_file
      endian_unknown 0 4 shifted_detected (file_descriptor-IsFile shifted_file (omega arith))
      (ground arith) shifted_run

-- A 64-bit PE object of 96 bytes with its NT header at 64.
abbrev pe_file : List ℕ
pe_file =
    (0x4d ∷ 0x5a ∷ replicate 58 0)
    ++ (64 ∷ 0 ∷ 0 ∷ 0 ∷ 0x50 ∷ 0x45 ∷ 0 ∷ 0 ∷ 0x64 ∷ 0x86 ∷ replicate 26 0)

pe_file-bytes : All IsByte pe_file
pe_file-bytes = ground arith

is_pe_object_iff_example :
    (is_pe_object little_host (file_descriptor pe_file) 96 ≡ ok (endian_little, 64))
    ↔ IsPe pe_file endian_little 64
is_pe_object_iff_example =
    is_pe_object_iff (file_descriptor pe_file) pe_file
      (file_descriptor-IsFile pe_file (omega arith)) pe_file-bytes little_host endian_little 64

-- An Elf header with its first bytes; magic numbers of the other kinds.
fill_in_elf_fields_iff_example :
    (is_elf_ident elf_file ≡ true) × (fill_in_elf_fields elf_file ≡ ok (endian_little, 64))
    ↔ IsElf elf_file endian_little 64
fill_in_elf_fields_iff_example = fill_in_elf_fields_iff elf_file endian_little 64 (omega arith)

is_mach_o_magic_iff_example :
    (is_mach_o_magic (0xcf ∷ 0xfa ∷ 0xed ∷ 0xfe ∷ []) ≡ some (endian_little, 64))
    ↔ IsMachO (0xcf ∷ 0xfa ∷ 0xed ∷ 0xfe ∷ []) endian_little 64
is_mach_o_magic_iff_example =
    is_mach_o_magic_iff (0xcf ∷ 0xfa ∷ 0xed ∷ 0xfe ∷ []) endian_little 64 (omega arith)
      (ground arith)

-- Reads of the Elf object above.
object_read_random_lem_example :
    object_read_random (file_descriptor elf_file) 20 6 26 ≡ ok (replicate 6 0)
object_read_random_lem_example =
    object_read_random_lem (file_descriptor elf_file) elf_file
      (file_descriptor-IsFile elf_file (omega arith)) 20 6 (omega arith) (omega arith)

read_run : object_read_random (file_descriptor elf_file) 1 3 26 ≡ ok (0x45 ∷ 0x4c ∷ 0x46 ∷ [])
unfolding object_read_random file_descriptor
read_run = refl

object_read_random-slice_example :
    (0x45 ∷ 0x4c ∷ 0x46 ∷ [] ≡ slice elf_file 1 3) × (◌≡◌ {A = ℕ} 3 3) × (1 < 26) × (3 ≤ 26 - 1)
object_read_random-slice_example =
    object_read_random-slice (file_descriptor elf_file) elf_file
      (file_descriptor-IsFile elf_file (omega arith)) 1 3 26 (0x45 ∷ 0x4c ∷ 0x46 ∷ []) read_run

dwarf_object_read_random-eq_example :
    dwarf_object_read_random (file_descriptor elf_file) 1 3 26
    ≡ object_read_random (file_descriptor elf_file) 1 3 26
dwarf_object_read_random-eq_example =
    dwarf_object_read_random-eq (file_descriptor elf_file) 1 3 26 (omega arith) (omega arith)

-- Paths.
abbrev one_file : List ℕ → Option Descriptor
one_file path = if length path == 3 then some (file_descriptor elf_file) else none

detector_path_out_lem_example :
    detector_path_out little_host one_file (codes "a/b") 41 (replicate 41 0) endian_unknown 0
    ≡ some (opened_result little_host one_file (codes "a/b") endian_unknown 0 none)
unfolding dwarf_object_detector_fd getbasename
detector_path_out_lem_example =
    detector_path_out_lem little_host one_file (codes "a/b") endian_unknown 0 41 (replicate 41 0)
      (omega arith)

getbasename-IsBaseName_example : IsBaseName (codes "a/b") (getbasename (codes "a/b"))
getbasename-IsBaseName_example = getbasename-IsBaseName (codes "a/b")

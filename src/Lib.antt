-- ===== src/Lib.antt =====
-- readelfobj: a library and programs that detect object files and read their headers.
--
-- The parts below the loaders of Elf, Mach-O and PE headers are modelled here, and the core of the
-- Elf loader. A loader is given an open file; the detector reads its first bytes and says which
-- loader is to read it, through the reader of a range of a file and through copies that swap bytes.
-- The Elf loader reads the Elf header, the tables of section and program headers and the section
-- groups, and the debug link code reads sections that name another file. What the programs print of
-- an object goes through `sanitized`, and longer text through the string buffer.
--
-- Codes is src/dwarf_reading.h with the list in src/dwarf_object_detector.c that repeats it.
-- SafeArithmetic is src/dwarf_safe_arithmetic.c. ObjectRead is `dwarf_object_read_random` of
-- src/dwarf_object_read_common.c and `object_read_random` of src/dwarf_object_detector.c. Bytes is
-- the byte copies, `ASNAR` and `magic_copy` of the same two files. Detector is
-- src/dwarf_object_detector.c, and Detector/Path its function for a path. Sanitized is
-- src/sanitized.c. DwarfString is src/dwarf_string.c, with its formats in DwarfString/Scan, its
-- digits in DwarfString/Digits, its padding in DwarfString/Padding, and its three printf functions
-- in DwarfString/Unsigned, DwarfString/Signed and DwarfString/Text; DwarfString/Sequence calls them
-- one after the other. DebugLink is the reading of sections of src/dwarf_debuglink.c. Elf is the
-- structures of src/readelfobj.h, and Elf/Headers, Elf/Sections, Elf/Programs, Elf/Groups and
-- Elf/Flags are the Elf header, the section headers, the program headers, the section groups and
-- the tests on sections of src/dwarf_load_elf_headers.c. Elf/Strings, Elf/Symbols, Elf/Relocations
-- with Elf/RelocationWords, and Elf/Dynamic are what it reads of the sections themselves, through
-- Elf/Content and Elf/Records, and Elf/Load is the calls that choose by the class of the object.
-- Elf/Layout is the structures of src/dw_elfstructs.h as the sizes of their words in order, which the
-- loader's fixed places are compared with. Elf/Decompress is src/dwarf_elf_decompress.c, with zlib
-- and zstd as the parameter `Library`. In the Elf loader the functions for 32 and for 64 bits share
-- definitions that take what they differ in. These files declare the code's functions under their
-- names, and the modules below them hold the proofs. Base is what they share, and Tests runs the
-- theorems on small inputs.
--
-- A word of w bits is a number below 2^w and wraps where the code's arithmetic does. A function
-- that answers through pointers and a return code gives a `Result`: the stored values, or the code
-- stored through `errcode`. A block of memory is a list of bytes, and a step outside its block is
-- `none`. An array of generic structures is a list, and a write behind the elements that were asked
-- for is `none` too. A C string is the list of its characters without the NUL. File descriptors,
-- `open` and `malloc` are parameters: `IsFile` is what POSIX says of a descriptor of a regular file, and
-- `IsAllocator` what C says of `malloc`. Both hosts, of either byte order, are modelled.
--
-- The loops over strings, words and digits are recursion on what is left of them. The loops that
-- pad a number run on fuel that is one above the count, and each round takes off at least one. The
-- loop that counts bits runs on fuel of 17, one above the nibbles of a word. The digit loop runs on
-- the room in its array of 36 bytes, and 64-bit numbers need at most 20.
--
-- Not modelled: opening and closing an Elf object; memory that is freed and used again; the loaders
-- of Mach-O and PE; the search paths that are made from a debug link; the tables of names, and what
-- the programs print; messages to standard output; the branches compiled for Windows, and the ones
-- for a program without zlib and zstd.
pub mod Base
pub mod Codes
pub mod SafeArithmetic
pub mod ObjectRead
pub mod Bytes
pub mod Detector
pub mod Sanitized
pub mod DwarfString
pub mod Elf
pub mod DebugLink
pub mod Tests

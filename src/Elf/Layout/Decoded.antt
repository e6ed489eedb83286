-- ===== src/Elf/Layout/Decoded.antt =====
-- What src/dwarf_load_elf_headers.c makes of the bytes of a symbol or a relocation, against the layout
-- of its structure.
use readelfobj_code.Base.{
  ℕ, ◌/◌, ◌^◌, inl, inr, refl, arith, Bool, true, false, bit_and, List, ◌==◌, Bool-cases,
}
use readelfobj_code.Base.Bits.{bit_and_nibble}
use readelfobj_code.Bytes.{Host, WordSwap, byte}
use readelfobj_code.Elf.{ElfFiledata}
use readelfobj_code.Elf.Decompress.{Library}
use readelfobj_code.Elf.Headers.{word_of}
use readelfobj_code.Elf.Layout.{
  SplitsAt, SignExtends, IsCharWord, is_little_mips, IsSymbol32, IsSymbol64, IsRela32, IsRela64,
  IsRel32, IsRel64,
}
use readelfobj_code.Elf.RelocationWords.{
  sign_extend, char_word, words_of_rela32, words_of_rela64, words_of_rel32, words_of_rel64,
}
use readelfobj_code.Elf.Symbols.{words_of_sym32, words_of_sym64}

nibbles : (info : ℕ) → SplitsAt 16 info (info / 16) (bit_and info 0xf)
nibbles info = (omega (arith, bit_and_nibble info), omega (arith, bit_and_nibble info))

pub words_of_sym32-IsSymbol32 :
    (host : Host) (copy : WordSwap) (s : List ℕ)
    → IsSymbol32 host copy s (words_of_sym32 host copy s)
unfolding words_of_sym32
words_of_sym32-IsSymbol32 host copy s = (refl, nibbles (word_of host copy s 12 1))

pub words_of_sym64-IsSymbol64 :
    (host : Host) (copy : WordSwap) (s : List ℕ)
    → IsSymbol64 host copy s (words_of_sym64 host copy s)
unfolding words_of_sym64
words_of_sym64-IsSymbol64 host copy s = (refl, nibbles (word_of host copy s 4 1))

sign_extend-SignExtends : (w : ℕ) → SignExtends (2 ^ 31) w (sign_extend w)
sign_extend-SignExtends w = ground arith

char_word-IsCharWord :
    (char_signed : Bool) (w : ℕ) → IsCharWord char_signed w (char_word char_signed w)
char_word-IsCharWord true w = ground arith
char_word-IsCharWord false w = refl

pub words_of_rela32-IsRela32 :
    (host : Host) (copy : WordSwap) (s : List ℕ)
    → IsRela32 host copy s (words_of_rela32 host copy s)
unfolding words_of_rela32
words_of_rela32-IsRela32 host copy s = (
  word_of host copy s 8 4,
  refl,
  sign_extend-SignExtends (word_of host copy s 8 4),
  ((omega arith, omega arith), refl, refl, refl),
)

pub words_of_rel32-IsRel32 :
    (host : Host) (copy : WordSwap) (s : List ℕ) → IsRel32 host copy s (words_of_rel32 host copy s)
unfolding words_of_rel32
words_of_rel32-IsRel32 host copy s = (refl, refl, ((omega arith, omega arith), refl, refl, refl))

module _ (host : Host) (lib : Library) (ep : ElfFiledata) (s : List ℕ) where
  pub words_of_rela64-IsRela64 : IsRela64 host lib ep s (words_of_rela64 host lib ep s)
  unfolding words_of_rela64
  words_of_rela64-IsRela64 =
      let type = char_word-IsCharWord lib.char_signed (byte s 15) in
      elim (Bool-cases (is_little_mips ep)) [
        | inl m ↦ rw m (refl, (refl, refl, refl, type, refl))
        | inr m ↦ elim (Bool-cases (ep.f_machine == 43)) [
          | inl p ↦ rw (m, p) (refl, (refl, refl, refl, type, refl))
          | inr p ↦ rw (m, p) (refl, ((omega arith, omega arith), refl, refl, refl))
        ]
      ]

  pub words_of_rel64-IsRel64 : IsRel64 host lib ep s (words_of_rel64 host lib ep s)
  unfolding words_of_rel64
  words_of_rel64-IsRel64 =
      let type = char_word-IsCharWord lib.char_signed (byte s 15) in
      elim (Bool-cases (is_little_mips ep)) [
        | inl m ↦ rw m (refl, refl, (refl, refl, refl, type, refl))
        | inr m ↦ rw m (refl, refl, ((omega arith, omega arith), refl, refl, refl))
      ]

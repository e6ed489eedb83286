-- ===== src/Elf/Layout.antt =====
-- The structures of src/dw_elfstructs.h as the sizes of their words, one behind the other, and what the
-- generic structures of src/readelfobj.h say of such words.
pub mod Decoded
use readelfobj_code.Base.{
  ℕ, ◌+◌, ◌*◌, ◌^◌, ◌≤◌, ◌<◌, ◌≡◌, ◌⊎◌, ◌&&◌, Bool, true, false, none, some, Option, List, [], ◌∷◌,
  take, drop, leb, ◌==◌, if◌then◌else◌,
}
use readelfobj_code.Bytes.{Host, WordSwap, byte, asnar}
use readelfobj_code.Elf.{
  GenericEhdr, GenericShdr, GenericPhdr, GenericSymentry, GenericRela, ElfFiledata,
}
use readelfobj_code.Elf.Decompress.{Library}

-- The words of these sizes that stand one behind the other from position `p` on.
abbrev pub words_at : Host → WordSwap → List ℕ → ℕ → List ℕ → List ℕ
words_at host copy [] p s = []
words_at host copy (size ∷ sizes) p s =
    asnar host copy (take size (drop p s)) ∷ words_at host copy sizes (p + size) s

-- The Elf header behind `e_ident`, for addresses of `word` bytes.
abbrev pub header_sizes : ℕ → List ℕ
header_sizes word = 2 ∷ 2 ∷ 4 ∷ word ∷ word ∷ word ∷ 4 ∷ 2 ∷ 2 ∷ 2 ∷ 2 ∷ 2 ∷ 2 ∷ []

abbrev pub header_words : GenericEhdr → List ℕ
header_words e =
    e.ge_type ∷ e.ge_machine ∷ e.ge_version ∷ e.ge_entry ∷ e.ge_phoff ∷ e.ge_shoff ∷ e.ge_flags
    ∷ e.ge_ehsize ∷ e.ge_phentsize ∷ e.ge_phnum ∷ e.ge_shentsize ∷ e.ge_shnum ∷ e.ge_shstrndx ∷ []

-- A section header, with flags, addresses and sizes of `word` bytes. `copysection` makes a generic header
-- of the bytes of each.
abbrev pub section_words : GenericShdr → List ℕ
section_words g =
    g.gh_name ∷ g.gh_type ∷ g.gh_flags ∷ g.gh_addr ∷ g.gh_offset ∷ g.gh_size ∷ g.gh_link ∷ g.gh_info
    ∷ g.gh_addralign ∷ g.gh_entsize ∷ []

abbrev pub CopiesSections : Host → WordSwap → ℕ → (GenericShdr → List ℕ → GenericShdr) → Type 0
CopiesSections host copy word copysection =
    (g : GenericShdr) (s : List ℕ)
    → section_words (copysection g s)
      ≡ words_at host copy (4 ∷ 4 ∷ word ∷ word ∷ word ∷ word ∷ 4 ∷ 4 ∷ word ∷ word ∷ []) 0 s

-- A program header of the class 32, and one of the class 64, where the flags stand elsewhere.
abbrev pub CopiesSegments32 : Host → WordSwap → (List ℕ → GenericPhdr) → Type 0
CopiesSegments32 host copy words_of_phdr =
    (s : List ℕ)
    → (let g = words_of_phdr s in
        g.gp_type ∷ g.gp_offset ∷ g.gp_vaddr ∷ g.gp_paddr ∷ g.gp_filesz ∷ g.gp_memsz ∷ g.gp_flags
        ∷ g.gp_align ∷ [])
      ≡ words_at host copy (4 ∷ 4 ∷ 4 ∷ 4 ∷ 4 ∷ 4 ∷ 4 ∷ 4 ∷ []) 0 s

abbrev pub CopiesSegments64 : Host → WordSwap → (List ℕ → GenericPhdr) → Type 0
CopiesSegments64 host copy words_of_phdr =
    (s : List ℕ)
    → (let g = words_of_phdr s in
        g.gp_type ∷ g.gp_flags ∷ g.gp_offset ∷ g.gp_vaddr ∷ g.gp_paddr ∷ g.gp_filesz ∷ g.gp_memsz
        ∷ g.gp_align ∷ [])
      ≡ words_at host copy (4 ∷ 4 ∷ 8 ∷ 8 ∷ 8 ∷ 8 ∷ 8 ∷ 8 ∷ []) 0 s

-- The upper and the lower part of a word, the lower one below `base`.
abbrev pub SplitsAt : ℕ → ℕ → ℕ → ℕ → Type 0
SplitsAt base word upper lower = (upper * base + lower ≡ word) × (lower < base)

-- A symbol of an object with the class 32, and one with the class 64.
abbrev pub IsSymbol32 : Host → WordSwap → List ℕ → GenericSymentry → Type 0
IsSymbol32 host copy s g =
    (g.gs_name ∷ g.gs_value ∷ g.gs_size ∷ g.gs_info ∷ g.gs_other ∷ g.gs_shndx ∷ []
      ≡ words_at host copy (4 ∷ 4 ∷ 4 ∷ 1 ∷ 1 ∷ 2 ∷ []) 0 s)
    × SplitsAt 16 g.gs_info g.gs_bind g.gs_type

abbrev pub IsSymbol64 : Host → WordSwap → List ℕ → GenericSymentry → Type 0
IsSymbol64 host copy s g =
    (g.gs_name ∷ g.gs_info ∷ g.gs_other ∷ g.gs_shndx ∷ g.gs_value ∷ g.gs_size ∷ []
      ≡ words_at host copy (4 ∷ 1 ∷ 1 ∷ 2 ∷ 8 ∷ 8 ∷ []) 0 s)
    × SplitsAt 16 g.gs_info g.gs_bind g.gs_type

abbrev pub IsSymbol : Host → ElfFiledata → List ℕ → GenericSymentry → Type 0
IsSymbol host ep =
    if ep.f_offsetsize == 32 then IsSymbol32 host ep.f_copy_word else IsSymbol64 host ep.f_copy_word

-- `v` is the 64-bit pattern of the signed word that `w` is the pattern of, with `sign` its sign bit.
abbrev pub SignExtends : ℕ → ℕ → ℕ → Type 0
SignExtends sign w v = ((w < sign) × (v ≡ w)) ⊎ ((sign ≤ w) × (v + 2 * sign ≡ w + 2 ^ 64))

-- A `char` as a word, which is signed where `char` is.
abbrev pub IsCharWord : Bool → ℕ → ℕ → Type 0
IsCharWord char_signed w v = if char_signed then SignExtends 128 w v else (v ≡ w)

-- The parts of `r_info`, as most machines have them.
abbrev pub HasInfo : ℕ → Bool → GenericRela → Type 0
HasInfo base isrela g =
    SplitsAt base g.gr_info g.gr_sym g.gr_type
    × (g.gr_isrela ≡ some isrela)
    × (g.gr_type2 ≡ none)
    × (g.gr_type3 ≡ none)

-- The four bytes behind the offset are the symbol, then come the bytes `r_ssym`, `r_type3`, `r_type2`
-- and `r_type`.
abbrev pub HasMipsInfo : Host → Library → WordSwap → Bool → List ℕ → GenericRela → Type 0
HasMipsInfo host lib copy isrela s g =
    (g.gr_offset ∷ g.gr_sym ∷ [] ≡ words_at host copy (8 ∷ 4 ∷ []) 0 s)
    × (g.gr_type3 ≡ some (byte s 13))
    × (g.gr_type2 ≡ some (byte s 14))
    × IsCharWord lib.char_signed (byte s 15) g.gr_type
    × (g.gr_isrela ≡ some isrela)

-- The same without the two more types, and with nothing kept of whether there are addends.
abbrev pub HasSparcInfo : Host → Library → WordSwap → List ℕ → GenericRela → Type 0
HasSparcInfo host lib copy s g =
    (g.gr_offset ∷ g.gr_sym ∷ [] ≡ words_at host copy (8 ∷ 4 ∷ []) 0 s)
    × (g.gr_type3 ≡ none)
    × (g.gr_type2 ≡ none)
    × IsCharWord lib.char_signed (byte s 15) g.gr_type
    × (g.gr_isrela ≡ none)

-- `EM_MIPS` is 8, and `DW_ENDIAN_LITTLE` is 2.
abbrev pub is_little_mips : ElfFiledata → Bool
is_little_mips ep = (ep.f_machine == 8) && (ep.f_endian == 2)

-- A relocation with an addend.
abbrev pub IsRela32 : Host → WordSwap → List ℕ → GenericRela → Type 0
IsRela32 host copy s g =
    (w : ℕ) × (g.gr_offset ∷ g.gr_info ∷ w ∷ [] ≡ words_at host copy (4 ∷ 4 ∷ 4 ∷ []) 0 s)
    × SignExtends (2 ^ 31) w g.gr_addend
    × HasInfo (2 ^ 8) true g

-- `EM_SPARCV9` is 43.
abbrev pub IsRela64 : Host → Library → ElfFiledata → List ℕ → GenericRela → Type 0
IsRela64 host lib ep s g =
    (g.gr_offset ∷ g.gr_info ∷ g.gr_addend ∷ [] ≡ words_at host ep.f_copy_word (8 ∷ 8 ∷ 8 ∷ []) 0 s)
    × (if is_little_mips ep
        then HasMipsInfo host lib ep.f_copy_word true s g
        else if ep.f_machine == 43
        then HasSparcInfo host lib ep.f_copy_word s g
        else HasInfo (2 ^ 32) true g)

abbrev pub IsRela : Host → Library → ElfFiledata → List ℕ → GenericRela → Type 0
IsRela host lib ep =
    if ep.f_offsetsize == 32 then IsRela32 host ep.f_copy_word else IsRela64 host lib ep

-- A relocation without an addend.
abbrev pub IsRel32 : Host → WordSwap → List ℕ → GenericRela → Type 0
IsRel32 host copy s g =
    (g.gr_offset ∷ g.gr_info ∷ [] ≡ words_at host copy (4 ∷ 4 ∷ []) 0 s)
    × (g.gr_addend ≡ 0)
    × HasInfo (2 ^ 8) false g

abbrev pub IsRel64 : Host → Library → ElfFiledata → List ℕ → GenericRela → Type 0
IsRel64 host lib ep s g =
    (g.gr_offset ∷ g.gr_info ∷ [] ≡ words_at host ep.f_copy_word (8 ∷ 8 ∷ []) 0 s)
    × (g.gr_addend ≡ 0)
    × (if is_little_mips ep
        then HasMipsInfo host lib ep.f_copy_word false s g
        else HasInfo (2 ^ 32) false g)

abbrev pub IsRel : Host → Library → ElfFiledata → List ℕ → GenericRela → Type 0
IsRel host lib ep =
    if ep.f_offsetsize == 32 then IsRel32 host ep.f_copy_word else IsRel64 host lib ep

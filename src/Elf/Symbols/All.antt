-- ===== src/Elf/Symbols/All.antt =====
-- The sections that `dwarf_load_elf_symtab_symbols_all` of src/dwarf_load_elf_headers.c comes by.
use readelfobj_code.Base.{
  ℕ, zero, suc, ◌+◌, ◌-◌, ◌≤◌, ◌≡◌, ◌≢◌, refl, ◌∙◌, arith, ◌||◌, Option, none, some, get_elem?,
  ◌==◌, get_elem?-set_ne,
}
use mathlib.Core.Path.{subst}
use readelfobj_code.Bytes.{Host}
use readelfobj_code.Codes.{Result, ok}
use readelfobj_code.Elf.{ElfFiledata}
use readelfobj_code.Elf.Decompress.{Library}
use readelfobj_code.Elf.Groups.Answered.{Answered, Answered-then, Answered-bind, Answered-if}
use readelfobj_code.Elf.Symbols.{
  dwarf_load_elf_symtab_symbols, load_symbols_at, symbols_loop, dwarf_load_elf_symtab_symbols_all,
}

load_symbols_at_others :
    (host : Host) (lib : Library) (ep : ElfFiledata) (k : ℕ)
    → Answered
        (λ after. (j : ℕ) → k ≢ j → get_elem? after.f_shdr j ≡ get_elem? ep.f_shdr j)
        (load_symbols_at host lib ep k)
unfolding load_symbols_at
load_symbols_at_others host lib ep k =
    let others =
      λ (after : ElfFiledata). (j : ℕ) → k ≢ j → get_elem? after.f_shdr j ≡ get_elem? ep.f_shdr j in
    Answered-then others _ (get_elem? ep.f_shdr k) (λ psh found.
      Answered-if others ((psh.gh_type == 2) || (psh.gh_type == 11)) _ _
        (Answered-then others _ (dwarf_load_elf_symtab_symbols host lib ep psh)
          (λ (psh', res) e j differ. get_elem?-set_ne ep.f_shdr k j psh' differ))
        (λ j differ. refl))

Answered-implies :
    {A : Type 0} (P Q : A → Type 0) (m : Option A)
    → Answered P m
    → ((a : A) → P a → Q a)
    → Answered Q m
Answered-implies P Q none h k = tt
Answered-implies P Q (some a) h k = k a h

symbols_loop_behind :
    (host : Host) (lib : Library) (rounds k : ℕ) (ep : ElfFiledata)
    → Answered
        (λ after. (j : ℕ) → k + rounds ≤ j → get_elem? after.f_shdr j ≡ get_elem? ep.f_shdr j)
        (symbols_loop host lib ep k rounds)
unfolding symbols_loop
symbols_loop_behind host lib zero k ep = λ j behind. refl
symbols_loop_behind host lib (suc rounds) k ep =
    let behind = λ (after : ElfFiledata).
      (j : ℕ) → k + suc rounds ≤ j → get_elem? after.f_shdr j ≡ get_elem? ep.f_shdr j in
    Answered-bind behind _
      (λ after. (j : ℕ) → k ≢ j → get_elem? after.f_shdr j ≡ get_elem? ep.f_shdr j)
      (load_symbols_at host lib ep k) (load_symbols_at_others host lib ep k)
      (λ ep' same.
        Answered-implies _ behind (symbols_loop host lib ep' (k + 1) rounds)
          (symbols_loop_behind host lib rounds (k + 1) ep')
          (λ after rest j past. rest j (omega arith) ∙ same j (omega arith)))

-- When `dwarf_load_elf_symtab_symbols_all` answers, it answers `DW_DLV_OK`, and the last section and
-- what stands behind the section count are as they were: no symbols of the last section are loaded,
-- whatever its type is.
pub dwarf_load_elf_symtab_symbols_all_last :
    (host : Host) (lib : Library) (ep after : ElfFiledata) (res : Result (Unit {0}))
    → dwarf_load_elf_symtab_symbols_all host lib ep ≡ some (after, res)
    → (j : ℕ) → ep.f_loc_shdr.g_count ≤ j + 1
    → (res ≡ ok tt) × (get_elem? after.f_shdr j ≡ get_elem? ep.f_shdr j)
unfolding dwarf_load_elf_symtab_symbols_all
dwarf_load_elf_symtab_symbols_all_last host lib ep after res e j last =
    let n = ep.f_loc_shdr.g_count - 1 in
    let finished = λ (r : ElfFiledata × Result (Unit {0})).
      (r.1 ≡ ok tt) × (get_elem? r.0.f_shdr j ≡ get_elem? ep.f_shdr j) in
    let all : Answered finished (dwarf_load_elf_symtab_symbols_all host lib ep) =
      Answered-bind finished _
        (λ a. (i : ℕ) → 0 + n ≤ i → get_elem? a.f_shdr i ≡ get_elem? ep.f_shdr i)
        (symbols_loop host lib ep 0 n) (symbols_loop_behind host lib n 0 ep)
        (λ a same. (refl, same j (omega arith))) in
    subst (Answered finished) e all

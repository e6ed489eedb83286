-- ===== src/Elf/Groups/Answered.antt =====
-- What `elf_setup_all_section_groups` of src/dwarf_load_elf_headers.c leaves as it is: the first loop and
-- the groups that it reads.
use readelfobj_code.Base.{
  ℕ, zero, suc, ◌+◌, ◌-◌, ◌*◌, ◌/◌, ◌≡◌, refl, sym, ap, ◌∙◌, arith, inl, inr, Bool, true, false,
  ◌&&◌, not, Option, none, some, List, ◌∷◌, drop, get_elem?, get_elem?-set_self, get_elem?-set_ne,
  set, ltb, ◌==◌, if◌then◌else◌, Bool-cases,
}
use mathlib.Core.Path.{subst}
use readelfobj_code.Base.Memory.{◌>>=◌, store_all}
use readelfobj_code.Base.Words.{u64}
use readelfobj_code.Bytes.{Host, plain, asnar}
use readelfobj_code.Codes.{Result, ok, err, no_entry, ErrCode}
use readelfobj_code.Elf.{GenericShdr, ElfFiledata}
use readelfobj_code.Elf.Flags.{is_empty_section, elf_sht_groupsec, elf_flagmatches}
use readelfobj_code.Elf.Groups.{
  add_member, member_of, mark_member, group_loop, keep_group, group_in_area, read_gs_section_group,
  groups_loop,
}
use readelfobj_code.Elf.Sections.{struct_at}
use readelfobj_code.ObjectRead.{dwarf_object_read_random}

-- What is true of the answer, if there is one.
abbrev pub Answered {ℓ κ} : {A : Type ℓ} → (A → Type κ) → Option A → Type κ
Answered P none = Unit
Answered P (some a) = P a

module _ {A B : Type 0} (Q : B → Type 0) (f : A → Option B) where
  pub Answered-bind :
      (P : A → Type 0) (m : Option A)
      → Answered P m
      → ((a : A) → P a → Answered Q (f a))
      → Answered Q (m >>= f)
  Answered-bind P none h k = tt
  Answered-bind P (some a) h k = k a h

  -- What a step gives is only known to be its answer.
  pub Answered-then :
      (m : Option A) → ((a : A) → m ≡ some a → Answered Q (f a)) → Answered Q (m >>= f)
  Answered-then none k = tt
  Answered-then (some a) k = k a refl

pub Answered-if :
    {A : Type 0} (P : A → Type 0) (b : Bool) (x y : Option A)
    → Answered P x
    → Answered P y
    → Answered P (if b then x else y)
Answered-if P true x y h k = h
Answered-if P false x y h k = k

-- What the second loop looks at.
abbrev pub look : Option GenericShdr → Option (ℕ × List ℕ × Bool)
look none = none
look (some s) = some (s.gh_type, s.gh_namestring, s.gh_is_dwarf)

abbrev pub Same : List GenericShdr → List GenericShdr → Type 0
Same before after = (i : ℕ) → look (get_elem? after i) ≡ look (get_elem? before i)

pub set-Same :
    (shdrs : List GenericShdr) (k : ℕ) (v s : GenericShdr)
    → get_elem? shdrs k ≡ some s
    → look (some v) ≡ look (some s)
    → Same shdrs (set shdrs k v)
set-Same shdrs k v s found e i = elim (Bool-cases (k == i)) [
  | inl z ↦
      let here : k ≡ i = ground arith in
      subst (λ j. look (get_elem? (set shdrs k v) j) ≡ look (get_elem? shdrs j)) here
        (ap look (get_elem?-set_self shdrs k v found) ∙ e ∙ sym (ap look found))
  | inr z ↦ ap look (get_elem?-set_ne shdrs k i v (ground arith))
]

pub add_member-Same :
    (before : List GenericShdr) (lesser : ℕ) (marks : List GenericShdr × Result (List ℕ))
    → Same before marks.0
    → Same before (add_member lesser marks).0
add_member-Same before lesser (shdrs, ok members) h = h
add_member-Same before lesser (shdrs, err code) h = h
add_member-Same before lesser (shdrs, no_entry) h = h

pub mark_member-Same :
    (number : ℕ) (shdrs : List GenericShdr) (slots : List ℕ)
    (rest : List GenericShdr → Option (List GenericShdr × Result (List ℕ)))
    → ((m : List GenericShdr) → Answered (λ marks. Same m marks.0) (rest m))
    → (o : Option ℕ)
    → Answered (λ marks. Same shdrs marks.0) (mark_member number shdrs slots rest o)
mark_member-Same number shdrs slots rest same none = λ i. refl
mark_member-Same number shdrs slots rest same (some lesser) =
    let kept = λ (marks : List GenericShdr × Result (List ℕ)). Same shdrs marks.0 in
    Answered-then kept _ (struct_at 8 slots) (λ slot e.
      Answered-then kept _ (get_elem? shdrs lesser) (λ targ found.
        let marked = record targ { gh_section_group_number = number } in
        Answered-if kept (targ.gh_section_group_number == 0) _ _
          (Answered-bind kept _ (λ marks. Same (set shdrs lesser marked) marks.0)
            (rest (set shdrs lesser marked)) (same (set shdrs lesser marked))
            (λ marks h.
              add_member-Same shdrs lesser marks
                (λ i. h i ∙ set-Same shdrs lesser marked targ found refl i)))
          (λ i. refl)))

pub group_loop-Same :
    (host : Host) (g_count number : ℕ) (dp slots : List ℕ) (rounds : ℕ) (shdrs : List GenericShdr)
    → Answered (λ marks. Same shdrs marks.0) (group_loop host g_count number dp slots rounds shdrs)
unfolding group_loop
group_loop-Same host g_count number dp slots zero shdrs = λ i. refl
group_loop-Same host g_count number dp slots (suc rounds) shdrs =
    let kept = λ (marks : List GenericShdr × Result (List ℕ)). Same shdrs marks.0 in
    Answered-then kept _ (struct_at 4 dp) (λ dblock e.
      mark_member-Same number shdrs slots
        (λ m. group_loop host g_count number (drop 4 dp) (drop 8 slots) rounds m)
        (λ m. group_loop-Same host g_count number (drop 4 dp) (drop 8 slots) rounds m)
        (member_of host g_count dblock))

pub keep_group-Same :
    (ep : ElfFiledata) (secnum count : ℕ) (before : List GenericShdr)
    (marks : List GenericShdr × Result (List ℕ))
    → Same before marks.0
    → Answered (λ r. Same before r.0.f_shdr) (keep_group ep secnum count marks)
unfolding keep_group
keep_group-Same ep secnum count before (shdrs, no_entry) h = h
keep_group-Same ep secnum count before (shdrs, err code) h = h
keep_group-Same ep secnum count before (shdrs, ok members) h =
    let kept = λ (r : ElfFiledata × Result (Unit {0})). Same before r.0.f_shdr in
    Answered-then kept _ (get_elem? shdrs secnum) (λ psh found i.
      set-Same shdrs secnum
        (record psh { gh_sht_group_array = some (1 ∷ members); gh_sht_group_array_count = count })
        psh found refl i
      ∙ h i)

-- The state that is kept, with the answer.
abbrev pub Keeps : ElfFiledata → ElfFiledata × Result (Unit {0}) → Type 0
Keeps ep r = Same ep.f_shdr r.0.f_shdr

pub Answered-option :
    {A : Type 0} {B : Type 0} (P : B → Type 0) (x : Option B) (f : A → Option B) (o : Option A)
    → Answered P x
    → ((a : A) → Answered P (f a))
    → Answered P (elim o [ none ↦ x | some a ↦ f a ])
Answered-option P x f none h k = h
Answered-option P x f (some a) h k = k a

pub Answered-result :
    {A : Type 0} {B : Type 0} (P : B → Type 0) (x : Option B) (e : ErrCode → Option B)
    (f : A → Option B) (o : Result A)
    → Answered P x
    → ((c : ErrCode) → Answered P (e c))
    → ((a : A) → Answered P (f a))
    → Answered P (elim o [ no_entry ↦ x | err c ↦ e c | ok a ↦ f a ])
Answered-result P x e f no_entry h g k = h
Answered-result P x e f (err c) h g k = g c
Answered-result P x e f (ok a) h g k = k a

pub Answered-after :
    (ep ep' : ElfFiledata)
    → Same ep.f_shdr ep'.f_shdr
    → (m : Option (ElfFiledata × Result (Unit {0}))) → Answered (Keeps ep') m
    → Answered (Keeps ep) m
Answered-after ep ep' h none k = tt
Answered-after ep ep' h (some r) k = λ i. k i ∙ h i

module _ (host : Host) (malloc : ℕ → Option (List ℕ)) where
  pub group_in_area-Same :
      (ep : ElfFiledata) (secnum count : ℕ) (area : List ℕ)
      → Answered (Keeps ep) (group_in_area host malloc ep secnum count area)
  unfolding group_in_area
  group_in_area-Same ep secnum count area =
      Answered-option (Keeps ep) _ _ (malloc (u64 (count * 8))) (λ i. refl)
        (λ array. Answered-then (Keeps ep) _ (struct_at 4 area) (λ dblock e.
          Answered-if (Keeps ep)
            (not (asnar host plain dblock == 1) && not (asnar host plain dblock == 0x100_0000)) _ _
            (λ i. refl)
            (Answered-then (Keeps ep) _ (struct_at 8 array) (λ first w.
              Answered-bind (Keeps ep) _ (λ marks. Same ep.f_shdr marks.0)
                (group_loop host ep.f_loc_shdr.g_count ep.f_sg_next_group_number (drop 4 area)
                  (drop 8 array) (count - 1) ep.f_shdr)
                (group_loop-Same host ep.f_loc_shdr.g_count ep.f_sg_next_group_number (drop 4 area)
                  (drop 8 array) (count - 1) ep.f_shdr)
                (keep_group-Same ep secnum count ep.f_shdr)))))

  pub read_gs_section_group-Same :
      (ep : ElfFiledata) (secnum : ℕ) (psh : GenericShdr)
      → Answered (Keeps ep) (read_gs_section_group host malloc ep secnum psh)
  unfolding read_gs_section_group
  read_gs_section_group-Same ep secnum psh =
      let kept = Keeps ep in
      Answered-option kept _ _ psh.gh_sht_group_array
        (Answered-if kept (ltb psh.gh_size 4) _ _ (λ i. refl)
          (Answered-option kept _ _ (malloc psh.gh_size) (λ i. refl)
            (λ block. Answered-if kept (psh.gh_entsize == 0) _ _ tt (
              Answered-if kept (ltb ep.f_loc_shdr.g_count (psh.gh_size / psh.gh_entsize)) _ _
                (λ i. refl)
                (Answered-if kept (not (psh.gh_entsize == 4)) _ _ (λ i. refl)
                  (Answered-result kept _ _ _
                    (dwarf_object_read_random ep.f_fd psh.gh_offset psh.gh_size ep.f_filesize)
                    (λ i. refl) (λ code i. refl)
                    (λ bytes. Answered-then kept _ (store_all block 0 bytes) (λ area e.
                      group_in_area-Same ep secnum (psh.gh_size / psh.gh_entsize) area))))))))
        (λ array i. refl)

  pub groups_loop-Same :
      (rounds i : ℕ) (ep : ElfFiledata) → Answered (Keeps ep) (groups_loop host malloc rounds i ep)
  unfolding groups_loop
  groups_loop-Same zero i ep = λ j. refl
  groups_loop-Same (suc rounds) i ep =
      let kept = Keeps ep in
      let go_on = λ (ep' : ElfFiledata). groups_loop-Same rounds (i + 1) ep' in
      Answered-then kept _ (get_elem? ep.f_shdr i) (λ psh e.
        Answered-if kept (is_empty_section psh.gh_type) _ _ (go_on ep) (
          Answered-if kept (not (elf_sht_groupsec psh.gh_type psh.gh_namestring)) _ _
            (elim (elf_flagmatches psh.gh_flags 512)
              as (λ b. Answered kept (
                groups_loop host malloc rounds (i + 1) (
                  if b
                  then record ep {
                    f_shf_group_flag_section_count = u64 (ep.f_shf_group_flag_section_count + 1);
                  }
                  else ep))) [
                    | true ↦ go_on (record ep {
                      f_shf_group_flag_section_count = u64 (ep.f_shf_group_flag_section_count + 1);
                    })
                    | false ↦ go_on ep
                  ])
            (Answered-bind kept _ kept (read_gs_section_group host malloc ep i psh)
              (read_gs_section_group-Same ep i psh)
              (λ (ep', res) h.
                Answered-result kept _ _ _ res h (λ code. h)
                  (λ done.
                    Answered-after ep ep' h (groups_loop host malloc rounds (i + 1) ep')
                      (go_on ep'))))))

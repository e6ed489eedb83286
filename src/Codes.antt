-- ===== src/Codes.antt =====
-- src/dwarf_reading.h and the list in src/dwarf_object_detector.c that must match it: the return
-- values of the readers and the error codes that they put through `errcode`.
use readelfobj_code.Base.{ℕ, ◌≡◌, ◌≢◌, ◌⊎◌, inl, inr, refl, ap}

-- DW_DLV_OK, DW_DLV_ERROR and DW_DLV_NO_ENTRY.
pub data Dlv : Type 0 where
  dlv_ok dlv_error dlv_no_entry : Dlv

-- The error codes of the functions that are modelled.
pub data ErrCode : Type 0 where
  err_seek err_read err_path_size err_toosmall : ErrCode
  err_elf_version err_elf_class err_elf_endian err_not_a_known_type : ErrCode
  seek_off_end read_off_end no_dos_header no_nt_signature : ErrCode
  form_string_bad_string corrupt_gnu_debuglink corrupt_note_gnu_debugid : ErrCode
  corrupt_gnu_debugid_string corrupt_gnu_debugid_size alloc_fail : ErrCode
  err_malloc err_file_offset_bad err_bad_type_size err_group_error : ErrCode
  err_shdr_count_mismatch err_not_stored : ErrCode
  err_badoffsetsize err_rel_section_size err_string_offset_big : ErrCode
  err_rel_count_mismatch err_section_size zdebug_input_format_odd : ErrCode
  zlib_buf_error zlib_data_error zlib_section_short elf_endian_bad : ErrCode

-- The number that stands for a code in the headers. A call that fails and stores no code leaves the
-- 0 that its caller put there.
unfoldable pub errcode_number : ErrCode → ℕ
errcode_number err_seek = 2
errcode_number err_read = 3
errcode_number err_malloc = 4
errcode_number err_file_offset_bad = 8
errcode_number err_bad_type_size = 9
errcode_number err_toosmall = 10
errcode_number err_elf_version = 11
errcode_number err_elf_class = 12
errcode_number err_elf_endian = 13
errcode_number err_path_size = 15
errcode_number err_shdr_count_mismatch = 23
errcode_number err_not_a_known_type = 26
errcode_number err_group_error = 30
errcode_number seek_off_end = 31
errcode_number read_off_end = 32
errcode_number form_string_bad_string = 39
errcode_number corrupt_gnu_debuglink = 40
errcode_number corrupt_note_gnu_debugid = 41
errcode_number corrupt_gnu_debugid_string = 42
errcode_number corrupt_gnu_debugid_size = 43
errcode_number alloc_fail = 44
errcode_number no_dos_header = 45
errcode_number no_nt_signature = 46
errcode_number err_not_stored = 0
errcode_number err_badoffsetsize = 6
errcode_number err_rel_section_size = 18
errcode_number err_string_offset_big = 19
errcode_number err_rel_count_mismatch = 24
errcode_number err_section_size = 36
errcode_number zdebug_input_format_odd = 315
errcode_number zlib_buf_error = 316
errcode_number zlib_data_error = 317
errcode_number zlib_section_short = 338
errcode_number elf_endian_bad = 421

-- `DW_DLV_OK` with the values that the call stores through its pointers, `DW_DLV_ERROR` with the
-- code, or `DW_DLV_NO_ENTRY`.
pub data Result {ℓ} (A : Type ℓ) : Type ℓ where
  no_entry : Result A
  ok : (stored : A) → Result A
  err : (errcode : ErrCode) → Result A

module _ {ℓ κ} {A : Type ℓ} {B : Type κ} where
  infixl 5 ◌>>=◌
  abbrev pub ◌>>=◌ : Result A → (A → Result B) → Result B
  no_entry >>= k = no_entry
  err code >>= k = err code
  ok stored >>= k = k stored

  -- A chain that succeeds has a first step that succeeds.
  pub >>=-eq-ok :
      (step : Result A) (k : A → Result B) {last : B}
      → (step >>= k) ≡ ok last
      → (first : A) × (step ≡ ok first) × (k first ≡ ok last)
  >>=-eq-ok no_entry k e = cc
  >>=-eq-ok (err code) k e = cc
  >>=-eq-ok (ok stored) k e = (stored, refl, e)

pub no_entry-neq-ok {ℓ} : {A : Type ℓ} {a : A} → no_entry ≢ ok a
no_entry-neq-ok e = cc

pub err-neq-ok {ℓ} : {A : Type ℓ} {a : A} {code : ErrCode} → err code ≢ ok a
err-neq-ok e = cc

pub Result-cases {ℓ} :
    {A : Type ℓ} (r : Result A)
    → (r ≡ no_entry) ⊎ ((code : ErrCode) × (r ≡ err code)) ⊎ ((stored : A) × (r ≡ ok stored))
Result-cases no_entry = inl refl
Result-cases (err code) = inr (inl (code, refl))
Result-cases (ok stored) = inr (inr (stored, refl))

pub ok-injective {ℓ} : {A : Type ℓ} {a b : A} → ok a ≡ ok b → a ≡ b
ok-injective {A} {a} {b} e = ap (value a) e
  where
    value : A → Result A → A
    value d (ok x) = x
    value d (err c) = d
    value d no_entry = d

-- ===== src/SafeArithmetic.antt =====
-- src/dwarf_safe_arithmetic.c: the 64-bit product and sum that report an overflow. A call returns
-- its code and what it stored through `result`.
pub mod Overflow
use readelfobj_code.Base.{ℕ, ◌+◌, ◌*◌, ◌||◌, ◌&&◌, not, ltb, ◌==◌, if◌then◌else◌}
use readelfobj_code.Base.Words.{u64}
use readelfobj_code.Codes.{Dlv, dlv_ok, dlv_error}

pub uint64_mult : ℕ → ℕ → Dlv × ℕ
uint64_mult x y =
    let computed = u64 (x * y) in
    let bigger = if ltb y x then x else y in
    if computed == 0
    then (dlv_ok, computed)
    else if ltb computed bigger
    then (dlv_error, computed)
    else (dlv_ok, computed)

pub uint64_add : ℕ → ℕ → Dlv × ℕ
uint64_add lhs rhs =
    let computed = u64 (lhs + rhs) in
    let bigger = if ltb rhs lhs then lhs else rhs in
    if lhs == 0 || rhs == 0
    then (dlv_ok, computed)
    else if not (computed == 0) && ltb computed bigger
    then (dlv_error, computed)
    else (dlv_ok, computed)

-- ===== src/Tests/Files.antt =====
-- A descriptor of a regular file for the examples.
use readelfobj_code.Base.{
  ℕ, zero, suc, ◌^◌, ◌<◌, ◌≡◌, refl, sym, ap, ◌∙◌, List, [], ◌∷◌, Option, none, some, length, take,
  drop,
}
use readelfobj_code.ObjectRead.{Descriptor, IsFile}

unfoldable pub file_descriptor : List ℕ → Descriptor
file_descriptor bytes = record {
  lseek_end = some (length bytes);
  lseek_set = λ loc. some loc;
  read = λ pos n. some (take n (drop pos bytes));
}

take-length : (n : ℕ) (xs : List ℕ) → take (length (take n xs)) xs ≡ take n xs
take-length zero xs = refl
take-length (suc n) [] = refl
take-length (suc n) (x ∷ xs) = ap (◌∷◌ x) (take-length n xs)

some_out : List ℕ → Option (List ℕ) → List ℕ
some_out d none = d
some_out d (some x) = x

some_pos : ℕ → Option ℕ → ℕ
some_pos d none = d
some_pos d (some x) = x

pub file_descriptor-IsFile :
    (bytes : List ℕ) → length bytes < 2 ^ 63 → IsFile (file_descriptor bytes) bytes
unfolding file_descriptor some_pos some_out
file_descriptor-IsFile bytes h = record {
  end_at = refl;
  end_signed = h;
  seeks = λ loc small. refl;
  seeks_there = λ loc pos e. sym (ap (some_pos 0) e);
  reads_bytes = λ pos n out e.
      let same : take n (drop pos bytes) ≡ out = ap (some_out []) e in
      sym (
        ap (λ o. take (length o) (drop pos bytes)) (sym same)
        ∙ take-length n (drop pos bytes)
        ∙ same);
  reads_all = λ pos n small h. refl;
}

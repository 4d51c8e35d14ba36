-- ===== src/Acpi/Consecutive.antt =====
-- Fields that stand one behind the other in a table (src/machine_config/acpi).
use ferrum_vm.Prelude.{
  ℕ, zero, suc, ◌+◌, ◌≤◌, ◌≡◌, refl, ap, sym, append_assoc, List, [], ◌∷◌, ◌++◌, length, take, drop,
  arith, ok, length-append, length-drop, le→leb,
}
use ferrum_vm.Acpi.{Field, put, put_all}

-- Each field starts where the one before it ends, the first one at `at`.
abbrev pub AreConsecutive : ℕ → List Field → Type 0
AreConsecutive at [] = Unit {0}
AreConsecutive at (f ∷ fs) = (f.at ≡ at) × AreConsecutive (at + length f.bytes) fs

abbrev pub joined : List Field → List ℕ
joined [] = []
joined (f ∷ fs) = f.bytes ++ joined fs

take-append_length : (xs ys : List ℕ) (n : ℕ) → n ≡ length xs → take n (xs ++ ys) ≡ xs
take-append_length [] ys zero e = refl
take-append_length [] ys (suc n) e = ground arith
take-append_length (x ∷ xs) ys zero e = ground arith
take-append_length (x ∷ xs) ys (suc n) e =
    ap (λ zs. x ∷ zs) (take-append_length xs ys n (omega arith))

drop-append_length : (xs ys : List ℕ) (n k : ℕ) → n ≡ length xs + k → drop n (xs ++ ys) ≡ drop k ys
drop-append_length [] ys n k e = let same : n ≡ k = omega arith in ap (λ m. drop m ys) same
drop-append_length (x ∷ xs) ys zero k e = ground arith
drop-append_length (x ∷ xs) ys (suc n) k e = drop-append_length xs ys n k (omega arith)

put_behind :
    (pre old : List ℕ) (f : Field)
    → f.at ≡ length pre
    → length f.bytes ≤ length old
    → put (pre ++ old) f ≡ ok (pre ++ (f.bytes ++ drop (length f.bytes) old))
unfolding put
put_behind pre old f at fits =
    rw
      (
        le→leb (f.at + length f.bytes) (length (pre ++ old)) (omega (arith, length-append pre old)),
        take-append_length pre old f.at at,
        drop-append_length pre old (f.at + length f.bytes) (length f.bytes) (omega arith),
      )
      refl

-- Consecutive fields replace what stood in their place by their joined bytes.
pub put_all-joined :
    (pre old : List ℕ) (fs : List Field)
    → AreConsecutive (length pre) fs
    → length old ≡ length (joined fs)
    → put_all (pre ++ old) fs ≡ ok (pre ++ joined fs)
unfolding put_all
put_all-joined pre [] [] h whole = refl
put_all-joined pre (x ∷ old) [] h whole = ground arith
put_all-joined pre old (f ∷ fs) (at, h) whole =
    let sizes = length-append f.bytes (joined fs) in
    let longer : length (pre ++ f.bytes) ≡ length pre + length f.bytes =
      length-append pre f.bytes in
    let later =
      put_all-joined (pre ++ f.bytes) (drop (length f.bytes) old) fs (rw longer h)
        (omega (arith, length-drop (length f.bytes) old)) in
    rw (put_behind pre old f at (omega arith)) (
      rw
        (append_assoc pre f.bytes (drop (length f.bytes) old), append_assoc pre f.bytes (joined fs))
        at later)

pub AreConsecutive-append :
    (at : ℕ) (fs gs : List Field)
    → AreConsecutive at fs
    → AreConsecutive (at + length (joined fs)) gs
    → AreConsecutive at (fs ++ gs)
AreConsecutive-append at [] gs h k = let same : at + 0 ≡ at = omega arith in rw same at k
AreConsecutive-append at (f ∷ fs) gs (e, h) k =
    let sizes = length-append f.bytes (joined fs) in
    let same : at + length (f.bytes ++ joined fs) ≡ at + length f.bytes + length (joined fs) =
      omega arith in
    (e, AreConsecutive-append (at + length f.bytes) fs gs h (rw same at k))

pub joined-append : (fs gs : List Field) → joined (fs ++ gs) ≡ joined fs ++ joined gs
joined-append [] gs = refl
joined-append (f ∷ fs) gs =
    rw (joined-append fs gs) (sym (append_assoc f.bytes (joined fs) (joined gs)))

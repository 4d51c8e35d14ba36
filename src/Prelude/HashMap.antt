-- ===== src/Prelude/HashMap.antt =====
-- `std::collections::HashMap` with numeric keys, as an association list without repeated keys. Meant to
-- be used qualified: `HashMap.get`.
use ferrum_vm.Prelude.{
  ℕ, suc, ◌≤◌, ◌≡◌, refl, Bool, not, Option, none, some, List, [], ◌∷◌, length, ◌==◌, if◌then◌else◌,
  arith, is_none, ap, Bool-cases, inl, inr,
}

module _ {A : Type 0} where
  abbrev pub get : List (ℕ × A) → ℕ → Option A
  get [] k = none
  get ((j, v) ∷ m) k = if j == k then some v else get m k

  abbrev pub contains_key : List (ℕ × A) → ℕ → Bool
  contains_key m k = not (is_none (get m k))

  abbrev pub insert : List (ℕ × A) → ℕ → A → List (ℕ × A)
  insert [] k w = (k, w) ∷ []
  insert ((j, v) ∷ m) k w = let rest = insert m k w in if j == k then (k, w) ∷ m else (j, v) ∷ rest

  abbrev pub remove : List (ℕ × A) → ℕ → List (ℕ × A)
  remove [] k = []
  remove ((j, v) ∷ m) k = let rest = remove m k in if j == k then rest else (j, v) ∷ rest

module _ {A : Type 0} where
  pub get-insert :
      (m : List (ℕ × A)) (k : ℕ) (w : A) (q : ℕ)
      → get (insert m k w) q ≡ (if k == q then some w else get m q)
  get-insert [] k w q = refl
  get-insert ((j, v) ∷ m) k w q = ground (arith, get-insert m k w q)

  pub get-remove :
      (m : List (ℕ × A)) (k q : ℕ) → get (remove m k) q ≡ (if k == q then none else get m q)
  get-remove [] k q = ground arith
  get-remove ((j, v) ∷ m) k q = ground (arith, get-remove m k q)

  pub length-insert : (m : List (ℕ × A)) (k : ℕ) (w : A) → length (insert m k w) ≤ suc (length m)
  length-insert [] k w = omega arith
  length-insert ((j, v) ∷ m) k w = ground (arith, length-insert m k w)

  -- Writing to a key that is there keeps the number of keys.
  pub length-insert_old :
      (m : List (ℕ × A)) (k : ℕ) (w : A) {v : A}
      → get m k ≡ some v
      → length (insert m k w) ≡ length m
  length-insert_old [] k w e = cc
  length-insert_old ((j, v) ∷ m) k w e = elim (Bool-cases (j == k)) [
    | inl same ↦ rw same refl
    | inr other ↦ rw other (ap suc (length-insert_old m k w (rw other at e)))
  ]

  pub length-remove : (m : List (ℕ × A)) (k : ℕ) → length (remove m k) ≤ length m
  length-remove [] k = omega arith
  length-remove ((j, v) ∷ m) k = ground (arith, length-remove m k)

-- ===== src/Memory/Cells.antt =====
-- Copies into and out of a region's bytes (`ptr::copy_nonoverlapping` and `from_raw_parts` in
-- src/machine_config/memory_region.rs).
use ferrum_vm.Prelude.{
  ℕ, zero, suc, ◌+◌, ◌≤◌, ◌<◌, ◌≡◌, refl, ap₂, List, [], ◌∷◌, length, arith, ==_refl, ==_of_ne, ◌⊎◌,
}
use ferrum_vm.Memory.{load, store}

-- A copy leaves the bytes outside it alone.
pub store_outside :
    (c : ℕ → ℕ) (a : ℕ) (xs : List ℕ) (i : ℕ) → (i < a) ⊎ (a + length xs ≤ i) → store c a xs i ≡ c i
store_outside c a [] i h = refl
store_outside c a (x ∷ xs) i h = ground (arith, store_outside c (a + 1) xs i)

pub load-store_outside :
    (c : ℕ → ℕ) (a : ℕ) (xs : List ℕ) (i n : ℕ)
    → (i + n ≤ a) ⊎ (a + length xs ≤ i)
    → load (store c a xs) i n ≡ load c i n
load-store_outside c a xs i zero h = refl
load-store_outside c a xs i (suc n) h =
    ap₂ ◌∷◌ (store_outside c a xs i (ground arith))
      (load-store_outside c a xs (i + 1) n (ground arith))

-- What is read depends on the bytes of its range only.
pub load_ext : (c d : ℕ → ℕ) (a n : ℕ) → ((i : ℕ) → a ≤ i → c i ≡ d i) → load c a n ≡ load d a n
load_ext c d a zero h = refl
load_ext c d a (suc n) h =
    ap₂ ◌∷◌ (h a (omega arith)) (load_ext c d (a + 1) n (λ i p. h i (omega arith)))

pub length-load : (c : ℕ → ℕ) (a n : ℕ) → length (load c a n) ≡ n
length-load c a zero = refl
length-load c a (suc n) = omega (arith, length-load c (a + 1) n)

-- A copy is read back.
pub load-store_self : (c : ℕ → ℕ) (a : ℕ) (xs : List ℕ) → load (store c a xs) a (length xs) ≡ xs
load-store_self c a [] = refl
load-store_self c a (x ∷ xs) =
    ap₂ ◌∷◌ (rw (==_refl a))
      (rw (load_ext _ _ (a + 1) (length xs) later) (load-store_self c (a + 1) xs))
  where
    later : (i : ℕ) → a + 1 ≤ i → store c a (x ∷ xs) i ≡ store c (a + 1) xs i
    later i p = rw (==_of_ne i a (omega arith))

-- ===== src/Prelude/Overlay.antt =====
-- A list written over a part of another one: what is past its end is dropped.
use ferrum_vm.Prelude.{
  ℕ, zero, suc, ◌+◌, ◌-◌, ◌≤◌, ◌≡◌, refl, ap, List, [], ◌∷◌, ◌++◌, length, take, drop, arith,
}
use native.Mathlib.Numerals.{unary_clauses}

module _ {A : Type 0} where
  abbrev pub overlay : List A → ℕ → List A → List A
  overlay [] at xs = []
  overlay (o ∷ os) zero [] = o ∷ os
  overlay (o ∷ os) zero (x ∷ xs) = x ∷ overlay os zero xs
  overlay (o ∷ os) (suc at) xs = o ∷ overlay os at xs

module _ {A : Type 0} where
  pub length-overlay : (os : List A) (at : ℕ) (xs : List A) → length (overlay os at xs) ≡ length os
  length-overlay [] at xs = refl
  length-overlay (o ∷ os) zero [] = refl
  length-overlay (o ∷ os) zero (x ∷ xs) = ap suc (length-overlay os zero xs)
  length-overlay (o ∷ os) (suc at) xs = ap suc (length-overlay os at xs)

  pub overlay_none : (os : List A) (at : ℕ) → overlay os at [] ≡ os
  overlay_none [] at = refl
  overlay_none (o ∷ os) zero = refl
  overlay_none (o ∷ os) (suc at) = ap (λ t. o ∷ t) (overlay_none os at)

  -- Two pieces written one after the other are one.
  pub overlay-append :
      (os : List A) (at : ℕ) (xs ys : List A)
      → overlay (overlay os at xs) (at + length xs) ys ≡ overlay os at (xs ++ ys)
  overlay-append [] at xs ys = refl
  overlay-append (o ∷ os) zero [] ys = refl
  overlay-append (o ∷ os) zero (x ∷ xs) ys =
      simp unary_clauses (ap (λ t. x ∷ t) (overlay-append os zero xs ys))
  overlay-append (o ∷ os) (suc at) xs ys =
      let e : suc at + length xs ≡ suc (at + length xs) = omega arith in
      rw e (ap (λ t. o ∷ t) (overlay-append os at xs ys))

  -- Past the end nothing is written.
  pub overlay_past : (os : List A) (at : ℕ) (xs : List A) → length os ≤ at → overlay os at xs ≡ os
  overlay_past [] at xs h = refl
  overlay_past (o ∷ os) zero xs h = elim h [ ]
  overlay_past (o ∷ os) (suc at) xs h = ap (λ t. o ∷ t) (overlay_past os at xs (omega arith))

  -- A prefix that reaches the end is as good as the whole.
  pub overlay-take :
      (os : List A) (at n : ℕ) (xs ys : List A)
      → length os ≤ at + n
      → n ≤ length xs
      → overlay os at (take n xs) ≡ overlay os at (xs ++ ys)
  overlay-take [] at n xs ys h k = refl
  overlay-take (o ∷ os) zero zero xs ys h k = elim h [ ]
  overlay-take (o ∷ os) zero (suc n) [] ys h k = elim k [ ]
  overlay-take (o ∷ os) zero (suc n) (x ∷ xs) ys h k =
      ap (λ t. x ∷ t) (overlay-take os zero n xs ys (omega arith) (omega arith))
  overlay-take (o ∷ os) (suc at) n xs ys h k =
      ap (λ t. o ∷ t) (overlay-take os at n xs ys (omega arith) k)

  -- A slice replaced within the bounds.
  pub overlay_slice :
      (os : List A) (at : ℕ) (xs : List A)
      → at + length xs ≤ length os
      → take at os ++ (xs ++ drop (at + length xs) os) ≡ overlay os at xs
  overlay_slice [] zero [] h = refl
  overlay_slice [] zero (x ∷ xs) h = ground arith
  overlay_slice [] (suc at) xs h = ground arith
  overlay_slice (o ∷ os) zero [] h = refl
  overlay_slice (o ∷ os) zero (x ∷ xs) h =
      simp unary_clauses (ap (λ t. x ∷ t) (overlay_slice os zero xs (omega arith)))
  overlay_slice (o ∷ os) (suc at) xs h =
      let e : suc at + length xs ≡ suc (at + length xs) = omega arith in
      rw e (ap (λ t. o ∷ t) (overlay_slice os at xs (omega arith)))

  -- The whole list replaced.
  pub overlay_whole :
      (os xs : List A) → length os ≤ length xs → overlay os 0 xs ≡ take (length os) xs
  overlay_whole [] xs h = refl
  overlay_whole (o ∷ os) [] h = elim h [ ]
  overlay_whole (o ∷ os) (x ∷ xs) h = ap (λ t. x ∷ t) (overlay_whole os xs (omega arith))

  pub drop-append_short :
      (n : ℕ) (xs ys : List A) → n ≤ length xs → drop n (xs ++ ys) ≡ drop n xs ++ ys
  drop-append_short zero xs ys h = refl
  drop-append_short (suc n) [] ys h = elim h [ ]
  drop-append_short (suc n) (x ∷ xs) ys h = drop-append_short n xs ys (omega arith)

  pub drop-append_long :
      (n : ℕ) (xs ys : List A) → length xs ≤ n → drop n (xs ++ ys) ≡ drop (n - length xs) ys
  drop-append_long zero [] ys h = refl
  drop-append_long zero (x ∷ xs) ys h = elim h [ ]
  drop-append_long (suc n) [] ys h = simp unary_clauses
  drop-append_long (suc n) (x ∷ xs) ys h =
      simp unary_clauses (drop-append_long n xs ys (omega arith))

  pub take_all : (n : ℕ) (xs : List A) → length xs ≤ n → take n xs ≡ xs
  take_all zero [] h = refl
  take_all zero (x ∷ xs) h = elim h [ ]
  take_all (suc n) [] h = refl
  take_all (suc n) (x ∷ xs) h = ap (λ t. x ∷ t) (take_all n xs (omega arith))

  pub drop_empty : (n : ℕ) → drop {A = A} n [] ≡ []
  drop_empty zero = refl
  drop_empty (suc n) = refl

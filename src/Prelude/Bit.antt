-- ===== src/Prelude/Bit.antt =====
-- Single bits of a word, and tests of every word below a bound.
use ferrum_vm.Prelude.{
  ℕ, zero, suc, ◌/◌, ◌%◌, ◌^◌, ◌<◌, ◌≡◌, refl, min, max, bit_and, bit_or, ◌==◌, if◌then◌else◌,
  arith, Bool, true, ◌&&◌, Bool-cases, and_left, and_right, inl, inr,
}
use ferrum_vm.Prelude.Bits.{bit_and_low, bit_or_low}
use native.Mathlib.Nat.{pow-suc}

-- Bit `k` of `a`: 0 or 1.
abbrev pub bit : ℕ → ℕ → ℕ
bit a zero = a % 2
bit a (suc k) = bit (a / 2) k

pub bit-bit_and : (a b k : ℕ) → bit (bit_and a b) k ≡ min (bit a k) (bit b k)
bit-bit_and a b zero = omega (arith, bit_and_low a b)
bit-bit_and a b (suc k) =
    let half : bit_and a b / 2 ≡ bit_and (a / 2) (b / 2) = omega (arith, bit_and_low a b) in
    rw half (bit-bit_and (a / 2) (b / 2) k)

pub bit-bit_or : (a b k : ℕ) → bit (bit_or a b) k ≡ max (bit a k) (bit b k)
bit-bit_or a b zero = omega (arith, bit_or_low a b)
bit-bit_or a b (suc k) =
    let half : bit_or a b / 2 ≡ bit_or (a / 2) (b / 2) = omega (arith, bit_or_low a b) in
    rw half (bit-bit_or (a / 2) (b / 2) k)

pub bit-lt : (a k : ℕ) → bit a k < 2
bit-lt a zero = omega arith
bit-lt a (suc k) = bit-lt (a / 2) k

bit-zero : (k : ℕ) → bit 0 k ≡ 0
bit-zero zero = refl
bit-zero (suc k) = bit-zero k

-- A power of two has one bit.
pub bit-pow : (j k : ℕ) → bit (2 ^ j) k ≡ (if k == j then 1 else 0)
bit-pow zero zero = refl
bit-pow zero (suc k) = rw (bit-zero k) (ground arith)
bit-pow (suc j) zero = ground (arith, pow-suc 2 j)
bit-pow (suc j) (suc k) =
    let half : 2 ^ suc j / 2 ≡ 2 ^ j = omega (arith, pow-suc 2 j) in
    rw half (rw (bit-pow j k) (ground arith))

-- The test holds of every number below `n`.
unfoldable pub all_below : ℕ → (ℕ → Bool) → Bool
all_below zero test = true
all_below (suc n) test = test n && all_below n test

pub all_below-holds :
    (n : ℕ) (test : ℕ → Bool) → all_below n test ≡ true → (v : ℕ) → v < n → test v ≡ true
unfolding all_below
all_below-holds zero test all v h = elim h [ ]
all_below-holds (suc n) test all v h = elim (Bool-cases (v == n)) [
  | inl e ↦ ground (arith, and_left (test n) _ all)
  | inr e ↦ all_below-holds n test (and_right (test n) _ all) v (ground arith)
]

-- ===== src/Prelude/Bits.antt =====
-- Laws of `&` and `|` on words of any width, as arithmetic on bit fields.
use Prim.Native.Nat.{
  ℕ, zero, suc, ◌+◌, ◌-◌, ◌*◌, ◌/◌, ◌%◌, ◌^◌, ◌≤◌, ◌<◌, min, max, bit_and, bit_or, digits, bitwise,
  bit_and-bitwise, bit_or-bitwise,
}
use mathlib.Core.Path.{◌≡◌, refl, ap}
use native.Mathlib.Nat.{pow-suc, one-le-pow}
use native.Mathlib.Omega.{arith}

-- The digit recursion does not depend on its fuel, once that covers the first number.
module _ (z : ℕ → ℕ) (f : ℕ → ℕ → ℕ) where
  digits_enough : (a b n m : ℕ) → a ≤ n → a ≤ m → digits z f n a b ≡ digits z f m a b
  digits_enough zero b zero zero hn hm = refl
  digits_enough zero b zero (suc m) hn hm = refl
  digits_enough zero b (suc n) zero hn hm = refl
  digits_enough zero b (suc n) (suc m) hn hm = refl
  digits_enough (suc a) b zero m hn hm = elim hn [ ]
  digits_enough (suc a) b (suc n) zero hn hm = elim hm [ ]
  digits_enough (suc a) b (suc n) (suc m) hn hm =
      ap (λ (t : ℕ). t * 2 + f (suc a % 2) (b % 2))
        (digits_enough (suc a / 2) (b / 2) n m (omega arith) (omega arith))

  bitwise_low :
      (x y : ℕ)
      → f (suc x % 2) (y % 2) + 2 * bitwise z f (suc x / 2) (y / 2) ≡ bitwise z f (suc x) y
  bitwise_low x y =
      let same = digits_enough (suc x / 2) (y / 2) x (suc x / 2) (omega arith) (omega arith) in
      omega (arith, same)

pub bit_and_low : (a b : ℕ) → bit_and a b ≡ bit_and (a / 2) (b / 2) * 2 + min (a % 2) (b % 2)
bit_and_low zero b = omega (arith, bit_and-bitwise 0 b, bit_and-bitwise 0 (b / 2))
bit_and_low (suc a) b = omega (
  arith,
  bit_and-bitwise (suc a) b,
  bit_and-bitwise (suc a / 2) (b / 2),
  bitwise_low (λ y. 0) min a b,
)

pub bit_or_low : (a b : ℕ) → bit_or a b ≡ bit_or (a / 2) (b / 2) * 2 + max (a % 2) (b % 2)
bit_or_low zero b = omega (arith, bit_or-bitwise 0 b, bit_or-bitwise 0 (b / 2))
bit_or_low (suc a) b = omega (
  arith,
  bit_or-bitwise (suc a) b,
  bit_or-bitwise (suc a / 2) (b / 2),
  bitwise_low (λ y. y) max a b,
)

two_pow_suc : (q k : ℕ) → q * 2 ^ suc k ≡ (q * 2 ^ k) * 2
two_pow_suc q k = omega (arith, ap (λ (t : ℕ). q * t) (pow-suc 2 k))

-- A bitwise operation works on the two halves of a word separately.
module _ (op f : ℕ → ℕ → ℕ) (low : (a b : ℕ) → op a b ≡ op (a / 2) (b / 2) * 2 + f (a % 2) (b % 2))
    (none_set : op 0 0 ≡ 0) where
  fields :
      (k q s r t : ℕ)
      → r < 2 ^ k
      → t < 2 ^ k
      → op (q * 2 ^ k + r) (s * 2 ^ k + t) ≡ op q s * 2 ^ k + op r t
  fields zero q s r t hr ht = ground (arith, none_set)
  fields (suc k) q s r t hr ht = ground (
    arith,
    low (q * 2 ^ suc k + r) (s * 2 ^ suc k + t),
    low r t,
    two_pow_suc q k,
    two_pow_suc s k,
    two_pow_suc (op q s) k,
    two_pow_suc 1 k,
    fields k q s (r / 2) (t / 2),
  )

pub bit_or_fields :
    (k q s r t : ℕ)
    → r < 2 ^ k
    → t < 2 ^ k
    → bit_or (q * 2 ^ k + r) (s * 2 ^ k + t) ≡ bit_or q s * 2 ^ k + bit_or r t
bit_or_fields = fields bit_or max bit_or_low refl

pub bit_and_fields :
    (k q s r t : ℕ)
    → r < 2 ^ k
    → t < 2 ^ k
    → bit_and (q * 2 ^ k + r) (s * 2 ^ k + t) ≡ bit_and q s * 2 ^ k + bit_and r t
bit_and_fields = fields bit_and min bit_and_low refl

bit_and-zero_below : (n a : ℕ) → a ≤ n → bit_and a 0 ≡ 0
bit_and-zero_below n zero h = refl
bit_and-zero_below zero (suc a) h = elim h [ ]
bit_and-zero_below (suc n) (suc a) h =
    omega (arith, bit_and_low (suc a) 0, bit_and-zero_below n (suc a / 2) (omega arith))

pub bit_and-zero : (a : ℕ) → bit_and a 0 ≡ 0
bit_and-zero a = bit_and-zero_below a a (omega arith)

bit_or-zero_below : (n a : ℕ) → a ≤ n → bit_or a 0 ≡ a
bit_or-zero_below n zero h = refl
bit_or-zero_below zero (suc a) h = elim h [ ]
bit_or-zero_below (suc n) (suc a) h =
    omega (arith, bit_or_low (suc a) 0, bit_or-zero_below n (suc a / 2) (omega arith))

pub bit_or-zero : (a : ℕ) → bit_or a 0 ≡ a
bit_or-zero a = bit_or-zero_below a a (omega arith)

pub zero-bit_or : (a : ℕ) → bit_or 0 a ≡ a
zero-bit_or a = bit_or-bitwise 0 a

pub zero-bit_and : (a : ℕ) → bit_and 0 a ≡ 0
zero-bit_and a = bit_and-bitwise 0 a

-- `&` with `k` ones keeps the `k` low bits.
bit_and_ones_below : (k r : ℕ) → r < 2 ^ k → bit_and r (2 ^ k - 1) ≡ r
bit_and_ones_below zero r h = omega (arith, bit_and-zero r)
bit_and_ones_below (suc k) r h = ground (
  arith,
  bit_and_low r (2 ^ suc k - 1),
  two_pow_suc 1 k,
  one-le-pow k 2,
  bit_and_ones_below k (r / 2),
)

pub bit_and_ones : (k a : ℕ) → bit_and a (2 ^ k - 1) ≡ a % 2 ^ k
bit_and_ones k a = ground (
  arith,
  one-le-pow k 2,
  bit_and_fields k (a / 2 ^ k) 0 (a % 2 ^ k) (2 ^ k - 1),
  bit_and-zero (a / 2 ^ k),
  bit_and_ones_below k (a % 2 ^ k),
)

-- A field shifted past the other word's bits is added by `|`.
pub bit_or_disjoint : (k q r : ℕ) → r < 2 ^ k → bit_or (q * 2 ^ k) r ≡ q * 2 ^ k + r
bit_or_disjoint k q r h =
    ground (arith, one-le-pow k 2, bit_or_fields k q 0 0 r, bit_or-zero q, zero-bit_or r)

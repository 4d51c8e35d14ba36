-- ===== src/Prelude/Bytes.antt =====
-- `to_le_bytes` and `from_le_bytes` of the unsigned words.
use Prim.Native.Nat.{ℕ, zero, suc, ◌+◌, ◌*◌, ◌/◌, ◌%◌, ◌^◌, ◌<◌}
use mathlib.Core.Path.{◌≡◌, refl, ap}
use mathlib.Core.List.{List, [], ◌∷◌}
use native.Mathlib.Nat.{pow-suc}
use native.Mathlib.Omega.{arith}
use ferrum_vm.Prelude.Lists.{length}

-- The `n` low bytes of `v`, lowest first.
abbrev pub le_bytes : ℕ → ℕ → List ℕ
le_bytes zero v = []
le_bytes (suc n) v = (v % 256) ∷ le_bytes n (v / 256)

abbrev pub from_le : List ℕ → ℕ
from_le [] = 0
from_le (x ∷ xs) = x + 256 * from_le xs

-- Every number of the list is a byte.
abbrev pub AreBytes : List ℕ → Type 0
AreBytes [] = Unit {0}
AreBytes (x ∷ xs) = (x < 256) × AreBytes xs

pub length-le_bytes : (n v : ℕ) → length (le_bytes n v) ≡ n
length-le_bytes zero v = refl
length-le_bytes (suc n) v = ap suc (length-le_bytes n (v / 256))

pub le_bytes-AreBytes : (n v : ℕ) → AreBytes (le_bytes n v)
le_bytes-AreBytes zero v = tt
le_bytes-AreBytes (suc n) v = (omega arith, le_bytes-AreBytes n (v / 256))

pub from_le-le_bytes : (n v : ℕ) → v < 256 ^ n → from_le (le_bytes n v) ≡ v
from_le-le_bytes zero v h = omega arith
from_le-le_bytes (suc n) v h =
    omega (arith, pow-suc 256 n, from_le-le_bytes n (v / 256) (omega (arith, pow-suc 256 n)))

pub from_le_bound : (xs : List ℕ) → AreBytes xs → from_le xs < 256 ^ length xs
from_le_bound [] h = omega arith
from_le_bound (x ∷ xs) h = omega (arith, pow-suc 256 (length xs), from_le_bound xs h.1)

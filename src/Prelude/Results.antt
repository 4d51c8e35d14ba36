-- ===== src/Prelude/Results.antt =====
-- Outcomes of Rust code that may panic, and the checked arithmetic of the two build profiles.
use Prim.Native.Nat.{ℕ, ◌+◌, ◌-◌, ◌*◌, ◌≤◌, ◌<◌, ◌%◌, ◌^◌}
use mathlib.Core.Path.{◌≡◌, refl}
use mathlib.Core.Option.{Option, none, some}
use native.Mathlib.Omega.{arith}
use ferrum_vm.Prelude.Tests.{ltb, leb, if◌then◌else◌}

-- What a call comes to: a value, a panic (a failed index, `unwrap`, `assert!` or overflow check),
-- or, in the model alone, a loop that was given too little fuel.
pub data Result {ℓ} (A : Type ℓ) : Type ℓ where
  ok : A → Result A
  panic : Result A
  no_fuel : Result A

infixl 5 ◌>>=◌
abbrev pub ◌>>=◌ {ℓ κ} : {X : Type ℓ} {Y : Type κ} → Result X → (X → Result Y) → Result Y
panic >>= onward = panic
no_fuel >>= onward = no_fuel
ok x >>= onward = onward x

-- `Option::unwrap`.
abbrev pub unwrap {ℓ} : {A : Type ℓ} → Option A → Result A
unwrap none = panic
unwrap (some a) = ok a

-- A build with overflow checks (`cargo run`) panics where one without them (`--release`) wraps.
pub data Build : Type 0 where
  debug release : Build

abbrev pub overflow : Build → ℕ → Result ℕ
overflow debug wrapped = panic
overflow release wrapped = ok wrapped

-- `x + y`, `x - y` and `x * y` on words below `m`, a power of two.
abbrev pub add_word : Build → ℕ → ℕ → ℕ → Result ℕ
add_word b m x y = if ltb (x + y) m then ok (x + y) else overflow b ((x + y) % m)

abbrev pub sub_word : Build → ℕ → ℕ → ℕ → Result ℕ
sub_word b m x y = if leb y x then ok (x - y) else overflow b (x + m - y)

abbrev pub mul_word : Build → ℕ → ℕ → ℕ → Result ℕ
mul_word b m x y = if ltb (x * y) m then ok (x * y) else overflow b ((x * y) % m)

abbrev pub u8_mod : ℕ
u8_mod = 2 ^ 8

abbrev pub u16_mod : ℕ
u16_mod = 2 ^ 16

abbrev pub u32_mod : ℕ
u32_mod = 2 ^ 32

abbrev pub u64_mod : ℕ
u64_mod = 2 ^ 64

-- The call returned, and its value satisfies `P`.
abbrev pub Returns {ℓ} : {A : Type ℓ} → Result A → (A → Type 0) → Type 0
Returns (ok a) P = P a
Returns panic P = ⊥
Returns no_fuel P = ⊥

-- A chain that returned has a first step that returned, and goes on from its value.
pub >>=-eq-ok {ℓ κ} :
    {X : Type ℓ} {Y : Type κ} (first : Result X) (onward : X → Result Y) {y : Y}
    → (first >>= onward) ≡ ok y
    → (x : X) × (first ≡ ok x) × (onward x ≡ ok y)
>>=-eq-ok (ok x) onward returned = (x, refl, returned)
>>=-eq-ok panic onward returned = cc
>>=-eq-ok no_fuel onward returned = cc

-- Arithmetic that stays in range returns the exact value in both builds.
pub add_word_exact : (b : Build) (m x y : ℕ) → x + y < m → add_word b m x y ≡ ok (x + y)
add_word_exact b m x y h = ground arith

pub sub_word_exact : (b : Build) (m x y : ℕ) → y ≤ x → sub_word b m x y ≡ ok (x - y)
sub_word_exact b m x y h = ground arith

pub mul_word_exact : (b : Build) (m x y : ℕ) → x * y < m → mul_word b m x y ≡ ok (x * y)
mul_word_exact b m x y h = ground arith

pub >>=-assoc {ℓ κ μ} :
    {A : Type ℓ} {B : Type κ} {C : Type μ} (m : Result A) (f : A → Result B) (g : B → Result C)
    → ((m >>= f) >>= g) ≡ (m >>= λ a. f a >>= g)
>>=-assoc (ok a) f g = refl
>>=-assoc panic f g = refl
>>=-assoc no_fuel f g = refl

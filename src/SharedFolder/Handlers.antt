-- ===== src/SharedFolder/Handlers.antt =====
-- How the handlers of the FUSE server are chained, and how they read a request
-- (src/platform/shared_folder).
use ferrum_vm.Prelude.{
  ℕ, suc, ◌+◌, ◌-◌, ◌&&◌, Option, none, some, List, [], ◌∷◌, length, take, drop, ◌==◌, leb,
  if◌then◌else◌, Result, ok, panic, no_fuel,
}
use ferrum_vm.Prelude.Bytes.{from_le}
use ferrum_vm.SharedFolder.Host.{ErrorKind, IoResult, success, failure}

-- The `Result<_, i32>` of a handler.
pub data Outcome (A : Type 0) : Type 0 where
  done : A → Outcome A
  errno : ℕ → Outcome A

-- A handler: it may panic, and it leaves the server changed whether it fails or not.
abbrev pub Handler : Type 0 → Type 0 → Type 0
Handler S A = S → Result (Outcome A × S)

-- The rest of a handler after a step, `?` included.
abbrev pub resume : {S A B : Type 0} → (A → Handler S B) → Outcome A × S → Result (Outcome B × S)
resume f (done a, s) = f a s
resume f (errno e, s) = ok (errno e, s)

infixl 5 ◌>>=◌ ◌>>◌
unfoldable pub ◌>>=◌ : {S A B : Type 0} → Handler S A → (A → Handler S B) → Handler S B
◌>>=◌ m f s = elim (m s) [ ok r ↦ resume f r | panic ↦ panic | no_fuel ↦ no_fuel ]

abbrev pub ◌>>◌ : {S A B : Type 0} → Handler S A → Handler S B → Handler S B
m >> k = m >>= λ _. k

unfoldable pub pure : {S A : Type 0} → A → Handler S A
pure a s = ok (done a, s)

unfoldable pub fail : {S A : Type 0} → ℕ → Handler S A
fail e s = ok (errno e, s)

unfoldable pub crash : {S A : Type 0} → Handler S A
crash s = panic

unfoldable pub or_fail : {S A : Type 0} → Option A → ℕ → Handler S A
or_fail none e = fail e
or_fail (some a) e = pure a

unfoldable pub map_err : {S A : Type 0} → (ErrorKind → ℕ) → IoResult A → Handler S A
map_err f (success a) = pure a
map_err f (failure k) = fail (f k)

-- `&body[from..to]`.
unfoldable pub slice : {S : Type 0} → List ℕ → ℕ → ℕ → Handler S (List ℕ)
slice body from to =
    if leb from to && leb to (length body) then pure (take (to - from) (drop from body)) else crash

-- `&body[from..]`.
unfoldable pub tail : {S : Type 0} → List ℕ → ℕ → Handler S (List ℕ)
tail body from = if leb from (length body) then pure (drop from body) else crash

unfoldable pub u32_at : {S : Type 0} → List ℕ → ℕ → Handler S ℕ
u32_at body at = do bytes ← slice body at (at + 4); pure (from_le bytes)

unfoldable pub u64_at : {S : Type 0} → List ℕ → ℕ → Handler S ℕ
u64_at body at = do bytes ← slice body at (at + 8); pure (from_le bytes)

-- The length of the bytes before the first 0, or of all of them.
abbrev pub name_len : List ℕ → ℕ
name_len [] = 0
name_len (x ∷ xs) = if x == 0 then 0 else suc (name_len xs)

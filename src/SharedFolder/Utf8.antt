-- ===== src/SharedFolder/Utf8.antt =====
-- `std::str::from_utf8`, which the handlers of src/platform/shared_folder test names with.
use ferrum_vm.Prelude.{
  ℕ, zero, suc, Bool, false, ◌&&◌, Option, none, some, List, [], ◌∷◌, ◌==◌, ltb, leb, if◌then◌else◌,
}

-- How many bytes follow a first byte, and the bounds of the first that follows.
abbrev lead : ℕ → Option (ℕ × ℕ × ℕ)
lead c =
    if ltb c 0x80
    then some (0, 0x80, 0xBF)
    else if leb 0xC2 c && leb c 0xDF
    then some (1, 0x80, 0xBF)
    else if c == 0xE0
    then some (2, 0xA0, 0xBF)
    else if c == 0xED
    then some (2, 0x80, 0x9F)
    else if leb 0xE1 c && leb c 0xEF
    then some (2, 0x80, 0xBF)
    else if c == 0xF0
    then some (3, 0x90, 0xBF)
    else if leb 0xF1 c && leb c 0xF3
    then some (3, 0x80, 0xBF)
    else if c == 0xF4
    then some (3, 0x80, 0x8F)
    else none

abbrev go_on : (ℕ → ℕ → ℕ → Bool) → Option (ℕ × ℕ × ℕ) → Bool
go_on rest none = false
go_on rest (some (n, lo, hi)) = rest n lo hi

utf8_from : List ℕ → ℕ → ℕ → ℕ → Bool
utf8_from [] n lo hi = n == 0
utf8_from (c ∷ cs) zero lo hi = go_on (utf8_from cs) (lead c)
utf8_from (c ∷ cs) (suc n) lo hi = leb lo c && (leb c hi && utf8_from cs n 0x80 0xBF)

unfoldable pub is_utf8 : List ℕ → Bool
unfolding utf8_from
is_utf8 bytes = utf8_from bytes 0 0x80 0xBF

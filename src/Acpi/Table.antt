-- ===== src/Acpi/Table.antt =====
-- Fields put into a table (src/machine_config/acpi).
use ferrum_vm.Prelude.{
  ℕ, zero, suc, ◌+◌, ◌-◌, ◌≤◌, ◌<◌, ◌≡◌, ◌⊎◌, le→leb, leb→le, ◌==◌, and_left, and_right, refl, ap,
  ◌∙◌, Bool, true, false, ◌&&◌, ◌||◌, List, [], ◌∷◌, ◌++◌, length, take, drop, get_or, leb, ltb,
  arith, ok, length-append, length-take, length-drop, Bool-cases, inl, inr,
}
use ferrum_vm.Acpi.{Field, put, put_all}

abbrev pub starts_zero : List ℕ → Bool
starts_zero [] = false
starts_zero (b ∷ bs) = b == 0

-- The field ends inside a table of `n` bytes, and does not cover byte `i` or puts a 0 there.
abbrev pub clears? : ℕ → ℕ → Field → Bool
clears? i n f =
    leb (f.at + length f.bytes) n
    && (ltb i f.at || leb (f.at + length f.bytes) i || i == f.at && starts_zero f.bytes)

abbrev pub all_clear? : ℕ → ℕ → List Field → Bool
all_clear? i n [] = true
all_clear? i n (f ∷ fs) = clears? i n f && all_clear? i n fs

get_or-take :
    (xs ys : List ℕ) (n i : ℕ)
    → i < n
    → n ≤ length xs
    → get_or (take n xs ++ ys) i 0 ≡ get_or xs i 0
get_or-take xs ys zero i h l = elim h [ ]
get_or-take [] ys (suc n) i h l = elim l [ ]
get_or-take (x ∷ xs) ys (suc n) zero h l = refl
get_or-take (x ∷ xs) ys (suc n) (suc i) h l = get_or-take xs ys n i (omega arith) (omega arith)

get_or-append_right :
    (xs ys : List ℕ) (i j : ℕ) → i ≡ length xs + j → get_or (xs ++ ys) i 0 ≡ get_or ys j 0
get_or-append_right [] ys i j h = let same : i ≡ j = omega arith in ap (λ k. get_or ys k 0) same
get_or-append_right (x ∷ xs) ys zero j h = omega arith
get_or-append_right (x ∷ xs) ys (suc i) j h = get_or-append_right xs ys i j (omega arith)

get_or-drop : (xs : List ℕ) (n i j : ℕ) → j ≡ n + i → get_or (drop n xs) i 0 ≡ get_or xs j 0
get_or-drop xs zero i j h = let same : i ≡ j = omega arith in ap (λ k. get_or xs k 0) same
get_or-drop [] (suc n) i j h = refl
get_or-drop (x ∷ xs) (suc n) i zero h = omega arith
get_or-drop (x ∷ xs) (suc n) i (suc j) h = get_or-drop xs n i j (omega arith)

unfoldable pub spliced : List ℕ → Field → List ℕ
spliced t f = take f.at t ++ (f.bytes ++ drop (f.at + length f.bytes) t)

pub length-spliced :
    (t : List ℕ) (f : Field) → f.at + length f.bytes ≤ length t → length (spliced t f) ≡ length t
unfolding spliced
length-spliced t f h =
    let rest = drop (f.at + length f.bytes) t in
    let whole = length-append (take f.at t) (f.bytes ++ rest) in
    let tail = length-append f.bytes rest in
    omega (arith, length-take f.at t, length-drop (f.at + length f.bytes) t)

get_or-spliced :
    (t : List ℕ) (i : ℕ) (f : Field)
    → f.at + length f.bytes ≤ length t
    → (i < f.at) ⊎ (f.at + length f.bytes ≤ i)
    → get_or (spliced t f) i 0 ≡ get_or t i 0
unfolding spliced
get_or-spliced t i f h (inl before) = get_or-take t _ f.at i before (omega arith)
get_or-spliced t i f h (inr after) =
    let rest = drop (f.at + length f.bytes) t in
    let j = i - (f.at + length f.bytes) in
    let start = length-take f.at t in
    get_or-append_right (take f.at t) (f.bytes ++ rest) i (length f.bytes + j) (omega arith)
    ∙ get_or-append_right f.bytes rest (length f.bytes + j) j refl
    ∙ get_or-drop t (f.at + length f.bytes) j i (omega arith)

get_or-starts_zero : (bs rest : List ℕ) → starts_zero bs ≡ true → get_or (bs ++ rest) 0 0 ≡ 0
get_or-starts_zero [] rest h = cc
get_or-starts_zero (b ∷ bs) rest h = ground arith

pub get_or-spliced_zero :
    (t : List ℕ) (i : ℕ) (f : Field)
    → f.at + length f.bytes ≤ length t
    → (i == f.at && starts_zero f.bytes) ≡ true
    → get_or (spliced t f) i 0 ≡ 0
unfolding spliced
get_or-spliced_zero t i f h e =
    let rest = drop (f.at + length f.bytes) t in
    let start = length-take f.at t in
    let here = and_left (i == f.at) _ e in
    get_or-append_right (take f.at t) (f.bytes ++ rest) i 0 (ground arith)
    ∙ get_or-starts_zero f.bytes rest (and_right (i == f.at) _ e)

-- A field that clears byte `i` of a table is put, keeps the table's length, and leaves a 0 there.
pub put-clear :
    (t : List ℕ) (i : ℕ) (f : Field)
    → clears? i (length t) f ≡ true
    → get_or t i 0 ≡ 0
    → (t' : List ℕ) × (put t f ≡ ok t') × (length t' ≡ length t) × (get_or t' i 0 ≡ 0)
unfolding put spliced
put-clear t i f h z =
    let fits : f.at + length f.bytes ≤ length t =
      leb→le _ _ (and_left (leb (f.at + length f.bytes) (length t)) _ h) in
    let covered = and_right (leb (f.at + length f.bytes) (length t)) _ h in
    let cleared : get_or (spliced t f) i 0 ≡ 0 =
      elim (Bool-cases (i == f.at && starts_zero f.bytes)) [
        | inl e ↦ get_or-spliced_zero t i f fits e
        | inr e ↦ get_or-spliced t i f fits (ground arith) ∙ z
      ] in
    (spliced t f, rw (le→leb _ _ fits) refl, length-spliced t f fits, cleared)

-- So does a list of them.
pub put_all-clear :
    (t : List ℕ) (i : ℕ) (fs : List Field)
    → all_clear? i (length t) fs ≡ true
    → get_or t i 0 ≡ 0
    → (t' : List ℕ) × (put_all t fs ≡ ok t') × (length t' ≡ length t) × (get_or t' i 0 ≡ 0)
unfolding put_all
put_all-clear t i [] h z = (t, refl, refl, z)
put_all-clear t i (f ∷ fs) h z =
    let (t₁, e₁, l₁, g₁) = put-clear t i f (and_left (clears? i (length t) f) _ h) z in
    let rest = and_right (clears? i (length t) f) _ h in
    let (t₂, e₂, l₂, g₂) = put_all-clear t₁ i fs (rw l₁ rest) g₁ in (t₂, rw e₁ e₂, l₂ ∙ l₁, g₂)

pub all_clear?-append :
    (i n : ℕ) (fs gs : List Field)
    → all_clear? i n fs ≡ true
    → all_clear? i n gs ≡ true
    → all_clear? i n (fs ++ gs) ≡ true
all_clear?-append i n [] gs h k = k
all_clear?-append i n (f ∷ fs) gs h k =
    rw (and_left (clears? i n f) _ h, all_clear?-append i n fs gs (and_right (clears? i n f) _ h) k)
      refl

-- A longer table holds the fields too.
pub all_clear?_mono :
    (i m n : ℕ) (fs : List Field) → m ≤ n → all_clear? i m fs ≡ true → all_clear? i n fs ≡ true
all_clear?_mono i m n [] l h = refl
all_clear?_mono i m n (f ∷ fs) l h =
    let wider : clears? i n f ≡ true = ground (arith, and_left (clears? i m f) _ h) in
    rw (wider, all_clear?_mono i m n fs l (and_right (clears? i m f) _ h)) refl

-- ===== src/Display/Rows.antt =====
-- The rows that a blit copies (src/platform/sdl/context.rs).
use ferrum_vm.Prelude.{
  ℕ, zero, suc, ◌+◌, ◌-◌, ◌*◌, ◌≤◌, ◌<◌, ◌≡◌, refl, ap, sym, ◌∙◌, min, true, List, [], ◌∷◌, ◌++◌,
  append_assoc, length, take, drop, replicate, length-append, length-replicate, length-take,
  length-drop, leb, leb→le, le→leb, Bool-cases, inl, inr, arith, ok, Build, u64_mod, add_word_exact,
  mul_word_exact,
}
use ferrum_vm.Prelude.Overlay.{drop-append_long, take_all}
use ferrum_vm.Display.{source_start, copy_row, copy_rows}

abbrev pub zeros : ℕ → List ℕ
zeros n = replicate n 0

length-zeros : (n : ℕ) → length (zeros n) ≡ n
length-zeros n = length-replicate n 0

-- The bytes of a row: those of the source from its start on, and zeros past the end of the source.
unfoldable pub row_bytes : List ℕ → ℕ → ℕ → List ℕ
row_bytes src row_len start = take row_len (drop start src ++ zeros row_len)

-- The picture: its rows one after the other, from `row` on with `left` to go.
unfoldable pub picture : List ℕ → ℕ → ℕ → ℕ → ℕ → ℕ → ℕ → List ℕ
picture src src_stride src_x src_y row_len row zero = []
picture src src_stride src_x src_y row_len row (suc left) =
    row_bytes src row_len ((src_y + row) * src_stride + src_x * 4)
    ++ picture src src_stride src_x src_y row_len (suc row) left

take-zeros : (n m : ℕ) → n ≤ m → take n (zeros m) ≡ zeros n
take-zeros zero m h = refl
take-zeros (suc n) zero h = elim h [ ]
take-zeros (suc n) (suc m) h = ap (λ t. 0 ∷ t) (take-zeros n m (omega arith))

take-append_zeros :
    (n m : ℕ) (xs : List ℕ) → n ≤ m → take n (xs ++ zeros m) ≡ take n xs ++ zeros (n - length xs)
take-append_zeros zero m xs h = let less : 0 - length xs ≡ 0 = omega arith in rw less refl
take-append_zeros (suc n) zero [] h = elim h [ ]
take-append_zeros (suc n) (suc m) [] h =
    let all : suc n - 0 ≡ suc n = omega arith in
    rw all (ap (λ t. 0 ∷ t) (take-zeros n m (omega arith)))
take-append_zeros (suc n) m (x ∷ xs) h =
    let less : suc n - suc (length xs) ≡ n - length xs = omega arith in
    rw less (ap (λ t. x ∷ t) (take-append_zeros n m xs (omega arith)))

take-min : (n : ℕ) (xs : List ℕ) → take (min n (length xs)) xs ≡ take n xs
take-min zero xs = let none : min 0 (length xs) ≡ 0 = omega arith in rw none refl
take-min (suc n) [] = let less : min (suc n) 0 ≡ 0 = omega arith in rw less refl
take-min (suc n) (x ∷ xs) =
    let both : min (suc n) (suc (length xs)) ≡ suc (min n (length xs)) = omega arith in
    rw both (ap (λ t. x ∷ t) (take-min n xs))

take-append_self : (xs ys : List ℕ) → take (length xs) (xs ++ ys) ≡ xs
take-append_self [] ys = refl
take-append_self (x ∷ xs) ys = ap (λ t. x ∷ t) (take-append_self xs ys)

drop-append_self : (xs ys : List ℕ) (n : ℕ) → drop (length xs + n) (xs ++ ys) ≡ drop n ys
drop-append_self xs ys n =
    let beyond : length xs + n - length xs ≡ n = omega arith in
    drop-append_long (length xs + n) xs ys (omega arith) ∙ ap (λ k. drop k ys) beyond

drop-zeros : (n k : ℕ) → drop n (zeros k) ≡ zeros (k - n)
drop-zeros zero k = let all : k - 0 ≡ k = omega arith in rw all refl
drop-zeros (suc n) zero = let less : 0 - suc n ≡ 0 = omega arith in rw less refl
drop-zeros (suc n) (suc k) =
    let less : suc k - suc n ≡ k - n = omega arith in rw less (drop-zeros n k)

zeros-add : (m n : ℕ) → zeros (m + n) ≡ zeros m ++ zeros n
zeros-add zero n = let all : 0 + n ≡ n = omega arith in rw all refl
zeros-add (suc m) n =
    let next : suc m + n ≡ suc (m + n) = omega arith in rw next (ap (λ t. 0 ∷ t) (zeros-add m n))

-- A row over the zeros behind the rows that are done.
copy_row-zeros :
    (done piece : List ℕ) (row_len rest : ℕ)
    → length piece ≤ row_len
    → copy_row (done ++ zeros (row_len + rest)) (length done) piece
      ≡ ok (done ++ ((piece ++ zeros (row_len - length piece)) ++ zeros rest))
unfolding copy_row
copy_row-zeros done piece row_len rest h =
    let left = zeros (row_len + rest) in
    let room : leb (length done + length piece) (length (done ++ left)) ≡ true =
      le→leb _ _ (omega (arith, length-append done left, length-zeros (row_len + rest))) in
    let split : row_len + rest - length piece ≡ (row_len - length piece) + rest = omega arith in
    let behind : drop (length done + length piece) (done ++ left)
        ≡ zeros (row_len - length piece) ++ zeros rest =
      drop-append_self done left (length piece)
      ∙ drop-zeros (length piece) (row_len + rest)
      ∙ ap (λ k. zeros k) split
      ∙ zeros-add (row_len - length piece) rest in
    rw (room, take-append_self done left, behind)
      (ap (λ t. ok (done ++ t))
        (sym (append_assoc piece (zeros (row_len - length piece)) (zeros rest))))

-- The piece of a row that the source has, and zeros for what it has not.
piece-row_bytes :
    (src : List ℕ) (row_len start : ℕ)
    → take (min row_len (length src - start)) (drop start src)
        ++ replicate (row_len - length (take (min row_len (length src - start)) (drop start src))) 0
      ≡ row_bytes src row_len start
unfolding row_bytes
piece-row_bytes src row_len start =
    let there = drop start src in
    let size : length src - start ≡ length there = omega (arith, length-drop start src) in
    let shorter : row_len - length (take row_len there) ≡ row_len - length there =
      omega (arith, length-take row_len there) in
    rw (size, take-min row_len there, shorter)
      (sym (take-append_zeros row_len row_len there (omega arith)))

drop_past : (n : ℕ) (xs : List ℕ) → length xs ≤ n → drop n xs ≡ []
drop_past zero [] h = refl
drop_past zero (x ∷ xs) h = elim h [ ]
drop_past (suc n) [] h = refl
drop_past (suc n) (x ∷ xs) h = drop_past n xs (omega arith)

row_bytes_past :
    (src : List ℕ) (row_len start : ℕ)
    → length src ≤ start
    → row_bytes src row_len start ≡ zeros row_len
unfolding row_bytes
row_bytes_past src row_len start h =
    let nothing : drop start src ≡ [] = drop_past start src h in
    rw nothing (take_all row_len (zeros row_len) (omega (arith, length-zeros row_len)))

length-row_bytes :
    (src : List ℕ) (row_len start : ℕ) → length (row_bytes src row_len start) ≡ row_len
unfolding row_bytes
length-row_bytes src row_len start =
    let there = drop start src in
    omega (
      arith,
      length-take row_len (there ++ zeros row_len),
      length-append there (zeros row_len),
      length-zeros row_len,
    )

source_start-eq :
    (b : Build) (src_stride src_x src_y row : ℕ)
    → src_y + row < u64_mod
    → (src_y + row) * src_stride + src_x * 4 < u64_mod
    → source_start b src_stride src_x src_y row ≡ ok ((src_y + row) * src_stride + src_x * 4)
unfolding source_start
source_start-eq b src_stride src_x src_y row h k =
    let line = mul_word_exact b u64_mod (src_y + row) src_stride (omega arith) in
    rw
      (
        add_word_exact b u64_mod src_y row h,
        line,
        mul_word_exact b u64_mod src_x 4 (omega arith),
        add_word_exact b u64_mod ((src_y + row) * src_stride) (src_x * 4) k,
      )
      refl

-- Past the source every row is blank.
picture_past :
    (src : List ℕ) (src_stride src_x src_y row_len row left : ℕ)
    → length src ≤ (src_y + row) * src_stride + src_x * 4
    → picture src src_stride src_x src_y row_len row left ≡ zeros (left * row_len)
unfolding picture
picture_past src src_stride src_x src_y row_len row zero h =
    let none : 0 * row_len ≡ 0 = omega arith in rw none refl
picture_past src src_stride src_x src_y row_len row (suc left) h =
    let size : suc left * row_len ≡ row_len + left * row_len = omega arith in
    let blank = row_bytes_past src row_len ((src_y + row) * src_stride + src_x * 4) h in
    let others = picture_past src src_stride src_x src_y row_len (suc row) left (omega arith) in
    rw (blank, others, size) (sym (zeros-add row_len (left * row_len)))

module _ (b : Build) (src : List ℕ) (src_stride src_x src_y row_len : ℕ) where
  copied :
      (start left row : ℕ) (done : List ℕ)
      → length done ≡ row * row_len
      → copy_row
          (done ++ zeros (suc left * row_len))
          (row * row_len)
          (take (min row_len (length src - start)) (drop start src))
        ≡ ok ((done ++ row_bytes src row_len start) ++ zeros (left * row_len))
  copied start left row done size =
      let len : ℕ = min row_len (length src - start) in
      let room : suc left * row_len ≡ row_len + left * row_len = omega arith in
      let narrow : length (take len (drop start src)) ≤ row_len =
        omega (arith, length-take len (drop start src)) in
      let zeroed = zeros (left * row_len) in
      rw (room, sym size)
        (copy_row-zeros done (take len (drop start src)) row_len (left * row_len) narrow
          ∙ ap (λ t. ok (done ++ (t ++ zeroed))) (piece-row_bytes src row_len start)
          ∙ ap ok (sym (append_assoc done (row_bytes src row_len start) zeroed)))

  pub copy_rows-picture :
      (row left : ℕ) (done : List ℕ)
      → length done ≡ row * row_len
      → src_y + (row + left) < u64_mod
      → (src_y + (row + left)) * src_stride + src_x * 4 < u64_mod
      → (row + left) * row_len < u64_mod
      → copy_rows b src src_stride src_x src_y row_len row left (done ++ zeros (left * row_len))
        ≡ ok (done ++ picture src src_stride src_x src_y row_len row left)
  unfolding copy_rows picture
  copy_rows-picture row zero done size h k l =
      let none : 0 * row_len ≡ 0 = omega arith in rw none refl
  copy_rows-picture row (suc left) done size h k l =
      let start : ℕ = (src_y + row) * src_stride + src_x * 4 in
      let known = source_start-eq b src_stride src_x src_y row (omega arith) (omega arith) in
      let room : suc left * row_len ≡ row_len + left * row_len = omega arith in
      elim (Bool-cases (leb (length src) start)) [
        | inl past ↦
            rw (known, past)
              (ap (λ t. ok (done ++ t))
                (sym (
                  picture_past src src_stride src_x src_y row_len row (suc left)
                    (leb→le _ _ past))))
        | inr within ↦
            rw
              (
                known,
                within,
                mul_word_exact b u64_mod row row_len (omega arith),
                copied start left row done size,
              )
              (copy_rows-picture (suc row) left (done ++ row_bytes src row_len start)
                  (omega (
                    arith,
                    length-append done (row_bytes src row_len start),
                    length-row_bytes src row_len start,
                  ))
                  (omega arith) (omega arith) (omega arith)
                ∙ ap ok (
                    append_assoc done (row_bytes src row_len start)
                      (picture src src_stride src_x src_y row_len (suc row) left)))
      ]

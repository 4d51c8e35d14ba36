-- ===== src/Memory/Held.antt =====
-- Ranges of guest RAM every part of which the memory handle reads (src/devices/virtio/virtio.rs).
use ferrum_vm.Prelude.{
  ℕ, zero, suc, ◌+◌, ◌-◌, ◌≤◌, ◌<◌, ◌≡◌, refl, ap, ◌∙◌, sym, length-replicate, Bool-cases, ◌⊎◌, inl,
  inr, [], ◌∷◌, length, take, drop, arith, false, ok, Build,
}
use ferrum_vm.Memory.{MemoryRegion, GuestMemory, load, read_guest_memory_alloc}
use ferrum_vm.Memory.RoundTrip.{
  Holds, Backed, covers, covers_of_Holds, peek, read_guest_memory_alloc-eq-peek,
}

-- Some region holds the range, and those before it lie above it.
abbrev pub Held : GuestMemory → ℕ → ℕ → Type 0
Held [] a n = ⊥
Held (r ∷ rs) a n = Holds r a n ⊎ ((a + n ≤ r.mem_offset) × Held rs a n)

Held-part :
    (mem : GuestMemory) (a m k n : ℕ) → Held mem a m → 0 < n → k + n ≤ m → Backed mem (a + k) n
Held-part [] a m k n h pos fit = elim h [ ]
Held-part (r ∷ rs) a m k n (inl h) pos fit = inl (ground arith)
Held-part (r ∷ rs) a m k n (inr (above, h)) pos fit =
    inr (inl (omega arith), Held-part rs a m k n h pos fit)

pub length-load : (c : ℕ → ℕ) (a n : ℕ) → length (load c a n) ≡ n
length-load c a zero = refl
length-load c a (suc n) = ap suc (length-load c (a + 1) n)

load-shift : (c : ℕ → ℕ) (a m k n : ℕ) → k + n ≤ m → take n (drop k (load c a m)) ≡ load c (a + k) n
load-shift c a m zero zero h = refl
load-shift c a (suc m) zero (suc n) h = grind (arith, load-shift c (a + 1) m zero n)
load-shift c a (suc m) (suc k) n h =
    load-shift c (a + 1) m k n (omega arith) ∙ ap (λ i. load c i n) (omega arith)
load-shift c a zero k (suc n) h = ground arith
load-shift c a m (suc k) zero h = refl

covers_above : (r : MemoryRegion) (a n : ℕ) → 0 < n → a + n ≤ r.mem_offset → covers r a n ≡ false
covers_above r a n pos h = ground arith

-- A part of the range is a part of its bytes.
peek-part :
    (mem : GuestMemory) (a m k n : ℕ)
    → Held mem a m
    → 0 < n
    → k + n ≤ m
    → peek mem (a + k) n ≡ take n (drop k (peek mem a m))
unfolding peek
peek-part [] a m k n h pos fit = elim h [ ]
peek-part (r ∷ rs) a m k n (inl h) pos fit =
    let sub : r.mem_offset ≤ a = h.1 in
    let whole = covers_of_Holds r a m h in
    let part = covers_of_Holds r (a + k) n (h.0, omega arith, omega arith) in
    rw (whole, part)
      (ap (λ i. load r.cells i n) (omega arith)
        ∙ sym (load-shift r.cells (a - r.mem_offset) m k n fit))
peek-part (r ∷ rs) a m k n (inr (above, h)) pos fit =
    let whole = covers_above r a m (omega arith) above in
    let part = covers_above r (a + k) n pos (omega arith) in
    rw (whole, part) (peek-part rs a m k n h pos fit)

pub length-peek : (mem : GuestMemory) (a n : ℕ) → length (peek mem a n) ≡ n
unfolding peek
length-peek [] a n = length-replicate n 0
length-peek (r ∷ rs) a n = elim (Bool-cases (covers r a n)) [
  | inl c ↦ rw c (length-load r.cells (a - r.mem_offset) n)
  | inr c ↦ rw c (length-peek rs a n)
]

pub read_part-eq-take :
    (b : Build) (mem : GuestMemory) (a m k n : ℕ)
    → Held mem a m
    → 0 < n
    → k + n ≤ m
    → read_guest_memory_alloc b mem (a + k) n ≡ ok (take n (drop k (peek mem a m)))
read_part-eq-take b mem a m k n h pos fit =
    read_guest_memory_alloc-eq-peek b mem (a + k) n (Held-part mem a m k n h pos fit)
    ∙ ap ok (peek-part mem a m k n h pos fit)

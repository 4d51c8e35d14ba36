-- ===== src/Memory/RoundTrip.antt =====
-- What the memory handle's reads and writes come to on a range that one region holds
-- (src/devices/virtio/virtio.rs).
use ferrum_vm.Prelude.{
  ℕ, zero, suc, ◌+◌, ◌-◌, ◌≤◌, ◌<◌, ◌≡◌, refl, ◌⊎◌, inl, inr, ap, Bool, true, false, ◌&&◌, List, [],
  ◌∷◌, length, replicate, arith, leb, if◌then◌else◌, ok, Build, ◌>>=◌, Bool-cases,
}
use ferrum_vm.Memory.{
  MemoryRegion, GuestMemory, load, store, in_bounds, read, write, fits, read_word_bytes,
  read_regions, read_guest_memory_alloc, write_guest_memory,
}
use ferrum_vm.Memory.Cells.{load-store_self, load-store_outside}

-- The region holds the `n` bytes from `a` on.
abbrev pub Holds : MemoryRegion → ℕ → ℕ → Type 0
Holds r a n = (r.ptr_is_null ≡ false) × (r.mem_offset ≤ a) × (a + n ≤ r.mem_offset + r.mem_size)

-- The region does not hold them, and its test does not overflow: they begin below it, or in it.
abbrev pub Skips : MemoryRegion → ℕ → ℕ → Type 0
Skips r a n =
    (a < r.mem_offset)
    ⊎ ((r.mem_offset ≤ a) × (a ≤ r.mem_offset + r.mem_size) × (r.mem_offset + r.mem_size < a + n))

-- Some region holds the range, and those before it are passed over.
abbrev pub Backed : GuestMemory → ℕ → ℕ → Type 0
Backed [] a n = ⊥
Backed (r ∷ rs) a n = Holds r a n ⊎ (Skips r a n × Backed rs a n)

-- The range of the region as a test.
abbrev pub covers : MemoryRegion → ℕ → ℕ → Bool
covers r a n = leb r.mem_offset a && leb (a + n) (r.mem_offset + r.mem_size)

-- The bytes of a range, and the memory with a range replaced: what the handle promises.
unfoldable pub peek : GuestMemory → ℕ → ℕ → List ℕ
peek [] a n = replicate n 0
peek (r ∷ rs) a n = if covers r a n then load r.cells (a - r.mem_offset) n else peek rs a n

unfoldable pub poke : GuestMemory → ℕ → List ℕ → GuestMemory
poke [] a xs = []
poke (r ∷ rs) a xs =
    if covers r a (length xs)
    then record r { cells = store r.cells (a - r.mem_offset) xs } ∷ rs
    else r ∷ poke rs a xs

fits_of_Holds : (b : Build) (r : MemoryRegion) (a n : ℕ) → Holds r a n → fits b r a n ≡ ok true
unfolding fits
fits_of_Holds b r a n h = ground arith

fits_of_Skips : (b : Build) (r : MemoryRegion) (a n : ℕ) → Skips r a n → fits b r a n ≡ ok false
unfolding fits
fits_of_Skips b r a n h = ground arith

pub covers_of_Holds : (r : MemoryRegion) (a n : ℕ) → Holds r a n → covers r a n ≡ true
covers_of_Holds r a n h = ground arith

covers_of_Skips : (r : MemoryRegion) (a n : ℕ) → Skips r a n → covers r a n ≡ false
covers_of_Skips r a n h = ground arith

in_bounds_of_Holds :
    (r : MemoryRegion) (a n : ℕ) → Holds r a n → in_bounds r (a - r.mem_offset) n ≡ true
unfolding in_bounds
in_bounds_of_Holds r a n h = ground arith

pub read_word_bytes-eq-peek :
    (b : Build) (n : ℕ) (mem : GuestMemory) (a : ℕ)
    → Backed mem a n
    → read_word_bytes b n mem a ≡ ok (peek mem a n)
unfolding read_word_bytes peek read
read_word_bytes-eq-peek b n [] a h = elim h [ ]
read_word_bytes-eq-peek b n (r ∷ rs) a (inl h) =
    rw (fits_of_Holds b r a n h, in_bounds_of_Holds r a n h, covers_of_Holds r a n h) refl
read_word_bytes-eq-peek b n (r ∷ rs) a (inr (s, h)) =
    rw (fits_of_Skips b r a n s, covers_of_Skips r a n s) (read_word_bytes-eq-peek b n rs a h)

read_regions-eq-peek :
    (b : Build) (mem : GuestMemory) (a n : ℕ)
    → Backed mem a n
    → read_regions b mem a n ≡ ok (peek mem a n)
unfolding read_regions peek read
read_regions-eq-peek b [] a n h = elim h [ ]
read_regions-eq-peek b (r ∷ rs) a n (inl h) =
    rw (fits_of_Holds b r a n h, in_bounds_of_Holds r a n h, covers_of_Holds r a n h) refl
read_regions-eq-peek b (r ∷ rs) a n (inr (s, h)) =
    rw (fits_of_Skips b r a n s, covers_of_Skips r a n s) (read_regions-eq-peek b rs a n h)

peek_none : (mem : GuestMemory) (a : ℕ) → peek mem a 0 ≡ []
unfolding peek
peek_none [] a = refl
peek_none (r ∷ rs) a = ground (arith, peek_none rs a)

-- In both builds a read of a range that one region holds returns its bytes.
pub read_guest_memory_alloc-eq-peek :
    (b : Build) (mem : GuestMemory) (a n : ℕ)
    → Backed mem a n
    → read_guest_memory_alloc b mem a n ≡ ok (peek mem a n)
unfolding read_guest_memory_alloc
read_guest_memory_alloc-eq-peek b mem a zero h = rw (peek_none mem a)
read_guest_memory_alloc-eq-peek b mem a (suc n) h =
    ground (arith, read_regions-eq-peek b mem a (suc n) h)

-- In both builds a write to such a range returns, and replaces it.
pub write_guest_memory-eq-poke :
    (b : Build) (mem : GuestMemory) (a : ℕ) (xs : List ℕ)
    → Backed mem a (length xs)
    → write_guest_memory b mem a xs ≡ ok (poke mem a xs)
unfolding write_guest_memory poke write
write_guest_memory-eq-poke b [] a xs h = elim h [ ]
write_guest_memory-eq-poke b (r ∷ rs) a xs (inl h) =
    rw
      (
        fits_of_Holds b r a (length xs) h,
        in_bounds_of_Holds r a (length xs) h,
        covers_of_Holds r a (length xs) h,
      )
      refl
write_guest_memory-eq-poke b (r ∷ rs) a xs (inr (s, h)) =
    rw
      (
        fits_of_Skips b r a (length xs) s,
        covers_of_Skips r a (length xs) s,
        write_guest_memory-eq-poke b rs a xs h,
      )
      refl

-- A range that is written is read back.
pub peek-poke_self :
    (mem : GuestMemory) (a : ℕ) (xs : List ℕ)
    → Backed mem a (length xs)
    → peek (poke mem a xs) a (length xs) ≡ xs
unfolding peek poke
peek-poke_self [] a xs h = elim h [ ]
peek-poke_self (r ∷ rs) a xs (inl h) =
    rw (covers_of_Holds r a (length xs) h)
      (rw (covers_of_Holds r a (length xs) h) (load-store_self r.cells (a - r.mem_offset) xs))
peek-poke_self (r ∷ rs) a xs (inr (s, h)) =
    rw (covers_of_Skips r a (length xs) s)
      (rw (covers_of_Skips r a (length xs) s) (peek-poke_self rs a xs h))

-- The two ranges share no byte.
abbrev pub Apart : ℕ → ℕ → ℕ → ℕ → Type 0
Apart a n a' n' = (a + n ≤ a') ⊎ (a' + n' ≤ a)

shifted :
    (r : MemoryRegion) (a m a' n : ℕ)
    → covers r a m ≡ true
    → Apart a m a' n
    → Holds r a' n
    → Apart (a' - r.mem_offset) n (a - r.mem_offset) m
shifted r a m a' n c d h = ground arith

-- A range apart from what is written keeps its bytes.
pub peek-poke-Apart :
    (mem : GuestMemory) (a : ℕ) (xs : List ℕ) (a' n : ℕ)
    → Apart a (length xs) a' n
    → Backed mem a' n
    → peek (poke mem a xs) a' n ≡ peek mem a' n
unfolding peek poke
peek-poke-Apart [] a xs a' n d h = elim h [ ]
peek-poke-Apart (r ∷ rs) a xs a' n d (inl h) = elim (Bool-cases (covers r a (length xs))) [
  | inl c ↦
      rw (c, covers_of_Holds r a' n h)
        (load-store_outside r.cells (a - r.mem_offset) xs (a' - r.mem_offset) n
          (shifted r a (length xs) a' n c d h))
  | inr c ↦ rw (c, covers_of_Holds r a' n h) refl
]
peek-poke-Apart (r ∷ rs) a xs a' n d (inr (s, h)) = elim (Bool-cases (covers r a (length xs))) [
  | inl c ↦ rw (c, covers_of_Skips r a' n s) refl
  | inr c ↦ rw (c, covers_of_Skips r a' n s) (peek-poke-Apart rs a xs a' n d h)
]

-- A write moves no region.
pub poke-Backed :
    (mem : GuestMemory) (a : ℕ) (xs : List ℕ) (a' n : ℕ)
    → Backed mem a' n
    → Backed (poke mem a xs) a' n
unfolding poke
poke-Backed [] a xs a' n h = h
poke-Backed (r ∷ rs) a xs a' n (inl h) = elim (Bool-cases (covers r a (length xs))) [
  | inl c ↦ rw c (inl h)
  | inr c ↦ rw c (inl h)
]
poke-Backed (r ∷ rs) a xs a' n (inr (s, h)) = elim (Bool-cases (covers r a (length xs))) [
  | inl c ↦ rw c (inr (s, h))
  | inr c ↦ rw c (inr (s, poke-Backed rs a xs a' n h))
]

module _ (b : Build) (mem : GuestMemory) (a : ℕ) (xs : List ℕ) (h : Backed mem a (length xs)) where
  -- In both builds, bytes written to a range that one region holds are what a read of that range
  -- then returns.
  pub write_guest_memory-read_back :
      (do mem' ← write_guest_memory b mem a xs; read_guest_memory_alloc b mem' a (length xs))
      ≡ ok xs
  write_guest_memory-read_back = rw (write_guest_memory-eq-poke b mem a xs h) (
      rw
        (read_guest_memory_alloc-eq-peek b (poke mem a xs) a (length xs)
          (poke-Backed mem a xs a (length xs) h))
        (ap ok (peek-poke_self mem a xs h)))

  -- In both builds, a write to a range that one region holds changes no byte outside it: a read of
  -- any other such range apart from it returns what it returned before.
  pub write_guest_memory-read-Apart :
      (a' n : ℕ)
      → Backed mem a' n
      → Apart a (length xs) a' n
      → (do mem' ← write_guest_memory b mem a xs; read_guest_memory_alloc b mem' a' n)
        ≡ read_guest_memory_alloc b mem a' n
  write_guest_memory-read-Apart a' n h' d = rw (write_guest_memory-eq-poke b mem a xs h) (
      rw
        (
          read_guest_memory_alloc-eq-peek b (poke mem a xs) a' n (poke-Backed mem a xs a' n h'),
          read_guest_memory_alloc-eq-peek b mem a' n h',
        )
        (ap ok (peek-poke-Apart mem a xs a' n d h')))

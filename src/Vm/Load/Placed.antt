-- ===== src/Vm/Load/Placed.antt =====
-- What the loading of binaries leaves in guest RAM (src/vm/builder.rs).
use ferrum_vm.Prelude.{
  ℕ, ◌+◌, ◌-◌, ◌≤◌, ◌<◌, ◌≡◌, refl, ap, ◌∙◌, ◌⊎◌, inl, inr, false, List, [], ◌∷◌, ◌++◌, length, leb,
  ltb, if◌then◌else◌, arith, ok, panic, Build, add_word_exact, u64_mod, lt→leb, le→leb, lt→ltb,
  le→ltb,
}
use ferrum_vm.Memory.{MemoryRegion, GuestMemory, load, store, write}
use ferrum_vm.Memory.Cells.{load-store_self, load-store_outside}
use ferrum_vm.Memory.RoundTrip.{Apart}
use ferrum_vm.Acpi.{Binary}
use ferrum_vm.Config.{MemoryRegionConfig}
use ferrum_vm.Vm.Load.{load_binary, load_binaries, place_binary, write_last}

-- The binary starts in the region.
abbrev pub Starts : MemoryRegionConfig → Binary → Type 0
Starts mem bin = (mem.mem_offset ≤ bin.offset) × (bin.offset < mem.mem_offset + mem.mem_size)

-- It starts outside of the region, or lies in it.
abbrev pub Fits : MemoryRegionConfig → Binary → Type 0
Fits mem bin =
    (bin.offset < mem.mem_offset)
    ⊎ (mem.mem_offset + mem.mem_size ≤ bin.offset)
    ⊎ ((mem.mem_offset ≤ bin.offset)
        × (bin.offset < mem.mem_offset + mem.mem_size)
        × (bin.offset + length bin.bytes ≤ mem.mem_offset + mem.mem_size))

abbrev pub AllFit : MemoryRegionConfig → List Binary → Type 0
AllFit mem [] = Unit {0}
AllFit mem (bin ∷ bins) = Fits mem bin × AllFit mem bins

-- Every binary of the list is apart from the range.
abbrev pub AllApart : ℕ → ℕ → List Binary → Type 0
AllApart a n [] = Unit {0}
AllApart a n (bin ∷ bins) = Apart bin.offset (length bin.bytes) a n × AllApart a n bins

-- The bytes of the region once the binaries that start in it are copied, one after the other.
unfoldable pub image : MemoryRegionConfig → List Binary → (ℕ → ℕ) → ℕ → ℕ
image mem [] c = c
image mem (bin ∷ bins) c = image mem bins (
    if leb mem.mem_offset bin.offset
    then if ltb bin.offset (mem.mem_offset + mem.mem_size)
      then store c (bin.offset - mem.mem_offset) bin.bytes
      else c
    else c)

-- The region that is the last one, with other bytes.
abbrev pub with_cells : MemoryRegionConfig → (ℕ → ℕ) → MemoryRegion
with_cells mem c = record {
  ptr_is_null = false;
  cells = c;
  mem_size = mem.mem_size;
  mem_offset = mem.mem_offset;
}

write_last-append :
    (before : GuestMemory) (r : MemoryRegion) (bytes : List ℕ) (at : ℕ)
    → write_last (before ++ (r ∷ [])) bytes at ≡ ok (before ++ (write r bytes at ∷ []))
unfolding write_last
write_last-append [] r bytes at = refl
write_last-append (s ∷ []) r bytes at = refl
write_last-append (s ∷ t ∷ before) r bytes at = rw (write_last-append (t ∷ before) r bytes at) refl

write-with_cells :
    (mem : MemoryRegionConfig) (c : ℕ → ℕ) (bytes : List ℕ) (at : ℕ)
    → at + length bytes ≤ mem.mem_size
    → write (with_cells mem c) bytes at ≡ with_cells mem (store c at bytes)
unfolding write
write-with_cells mem c bytes at h = ground arith

module _ (b : Build) (mem : MemoryRegionConfig) (before : GuestMemory)
    (fits_word : mem.mem_offset + mem.mem_size < u64_mod) where
  place_binary-image :
      (bin : Binary) (c : ℕ → ℕ)
      → (mem.mem_offset ≤ bin.offset)
        × (bin.offset < mem.mem_offset + mem.mem_size)
        × (bin.offset + length bin.bytes ≤ mem.mem_offset + mem.mem_size)
      → place_binary mem bin (before ++ (with_cells mem c ∷ []))
        ≡ ok (before ++ (with_cells mem (store c (bin.offset - mem.mem_offset) bin.bytes) ∷ []))
  unfolding place_binary
  place_binary-image bin c (low, start, high) =
      let at : ℕ = bin.offset - mem.mem_offset in
      rw
        (
          le→leb at mem.mem_size (omega arith),
          le→leb (length bin.bytes) (mem.mem_size - at) (omega arith),
        )
        (write_last-append before (with_cells mem c) bin.bytes at
          ∙ ap (λ r. ok (before ++ (r ∷ []))) (write-with_cells mem c bin.bytes at (omega arith)))

  load_binary-image :
      (bin : Binary) (c : ℕ → ℕ)
      → Fits mem bin
      → load_binary b mem bin (before ++ (with_cells mem c ∷ []))
        ≡ ok (before ++ (with_cells mem (image mem (bin ∷ []) c) ∷ []))
  unfolding load_binary image
  load_binary-image bin c (inl below) = rw (lt→leb mem.mem_offset bin.offset below) refl
  load_binary-image bin c (inr (inl past)) =
      rw
        (
          le→leb mem.mem_offset bin.offset (omega arith),
          add_word_exact b u64_mod mem.mem_offset mem.mem_size fits_word,
          le→ltb bin.offset (mem.mem_offset + mem.mem_size) past,
        )
        refl
  load_binary-image bin c (inr (inr inside)) =
      rw
        (
          le→leb mem.mem_offset bin.offset (omega arith),
          add_word_exact b u64_mod mem.mem_offset mem.mem_size fits_word,
          lt→ltb bin.offset (mem.mem_offset + mem.mem_size) (omega arith),
        )
        (place_binary-image bin c inside)

  pub load_binaries-image :
      (bins : List Binary) (c : ℕ → ℕ)
      → AllFit mem bins
      → load_binaries b mem bins (before ++ (with_cells mem c ∷ []))
        ≡ ok (before ++ (with_cells mem (image mem bins c) ∷ []))
  unfolding load_binaries image
  load_binaries-image [] c h = refl
  load_binaries-image (bin ∷ bins) c (h, hs) =
      rw (load_binary-image bin c h) (load_binaries-image bins (image mem (bin ∷ []) c) hs)

  -- A binary that starts in the region and ends past it stops the start, whatever follows it.
  pub load_binaries_overrun :
      (pre : List Binary) (bin : Binary) (post : List Binary) (c : ℕ → ℕ)
      → AllFit mem pre
      → Starts mem bin
      → mem.mem_offset + mem.mem_size < bin.offset + length bin.bytes
      → load_binaries b mem (pre ++ (bin ∷ post)) (before ++ (with_cells mem c ∷ [])) ≡ panic
  unfolding load_binaries load_binary place_binary
  load_binaries_overrun [] bin post c h starts over =
      rw
        (
          le→leb mem.mem_offset bin.offset starts.0,
          add_word_exact b u64_mod mem.mem_offset mem.mem_size fits_word,
          lt→ltb bin.offset (mem.mem_offset + mem.mem_size) starts.1,
          le→leb (bin.offset - mem.mem_offset) mem.mem_size (omega arith),
          lt→leb (length bin.bytes) (mem.mem_size - (bin.offset - mem.mem_offset)) (omega arith),
        )
        refl
  load_binaries_overrun (p ∷ pre) bin post c (h, hs) starts over =
      rw (load_binary-image p c h)
        (load_binaries_overrun pre bin post (image mem (p ∷ []) c) hs starts over)

image_one-Apart :
    (mem : MemoryRegionConfig) (bin : Binary) (c : ℕ → ℕ) (a n : ℕ)
    → mem.mem_offset ≤ a
    → Apart bin.offset (length bin.bytes) a n
    → load (image mem (bin ∷ []) c) (a - mem.mem_offset) n ≡ load c (a - mem.mem_offset) n
unfolding image
image_one-Apart mem bin c a n h k =
    ground
      (arith, load-store_outside c (bin.offset - mem.mem_offset) bin.bytes (a - mem.mem_offset) n)

-- Bytes that no binary covers stay.
pub image-AllApart :
    (mem : MemoryRegionConfig) (bins : List Binary) (c : ℕ → ℕ) (a n : ℕ)
    → mem.mem_offset ≤ a
    → AllApart a n bins
    → load (image mem bins c) (a - mem.mem_offset) n ≡ load c (a - mem.mem_offset) n
unfolding image
image-AllApart mem [] c a n h k = refl
image-AllApart mem (bin ∷ bins) c a n h (k, ks) =
    image-AllApart mem bins (image mem (bin ∷ []) c) a n h ks ∙ image_one-Apart mem bin c a n h k

image_one :
    (mem : MemoryRegionConfig) (bin : Binary) (c : ℕ → ℕ)
    → Starts mem bin
    → image mem (bin ∷ []) c ≡ store c (bin.offset - mem.mem_offset) bin.bytes
unfolding image
image_one mem bin c (h, k) =
    rw (le→leb mem.mem_offset bin.offset h, lt→ltb bin.offset (mem.mem_offset + mem.mem_size) k)
      refl

-- A binary that no later one covers is there.
pub image_placed :
    (mem : MemoryRegionConfig) (pre : List Binary) (bin : Binary) (post : List Binary) (c : ℕ → ℕ)
    → Starts mem bin
    → AllApart bin.offset (length bin.bytes) post
    → load (image mem (pre ++ (bin ∷ post)) c) (bin.offset - mem.mem_offset) (length bin.bytes)
      ≡ bin.bytes
unfolding image
image_placed mem [] bin post c starts apart =
    let at : ℕ = bin.offset - mem.mem_offset in
    ap (λ d. load (image mem post d) at (length bin.bytes)) (image_one mem bin c starts)
    ∙ image-AllApart mem post (store c at bin.bytes) bin.offset (length bin.bytes) starts.0 apart
    ∙ load-store_self c at bin.bytes
image_placed mem (p ∷ pre) bin post c starts apart =
    image_placed mem pre bin post (image mem (p ∷ []) c) starts apart

module _ (b : Build) (mem : MemoryRegionConfig) (before : GuestMemory) (c : ℕ → ℕ)
    (pre : List Binary) (bin : Binary) (post : List Binary)
    (fits_word : mem.mem_offset + mem.mem_size < u64_mod) (starts : Starts mem bin) where
  -- In both builds, where the new region ends below 2 ^ 64 and every binary of the configuration lies in
  -- it or starts outside of it, the binaries load, the regions before it stay as they were, a binary that starts in the
  -- region and that no later one covers is found at its address, and a range of the region that no
  -- binary covers has the bytes that were mapped.
  pub load_binaries-IsPlaced :
      (a n : ℕ)
      → AllFit mem (pre ++ (bin ∷ post))
      → AllApart bin.offset (length bin.bytes) post
      → mem.mem_offset ≤ a
      → AllApart a n (pre ++ (bin ∷ post))
      → (c' : ℕ → ℕ) × (load_binaries b mem
            (pre ++ (bin ∷ post))
            (before ++ (with_cells mem c ∷ []))
          ≡ ok (before ++ (with_cells mem c' ∷ [])))
        × (load c' (bin.offset - mem.mem_offset) (length bin.bytes) ≡ bin.bytes)
        × (load c' (a - mem.mem_offset) n ≡ load c (a - mem.mem_offset) n)
  load_binaries-IsPlaced a n fit apart above clear = (
    image mem (pre ++ (bin ∷ post)) c,
    load_binaries-image b mem before fits_word (pre ++ (bin ∷ post)) c fit,
    image_placed mem pre bin post c starts apart,
    image-AllApart mem (pre ++ (bin ∷ post)) c a n above clear,
  )

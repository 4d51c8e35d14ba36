-- ===== src/Config/Map.antt =====
-- What the firmware reads from the memory map (src/machine_config).
use ferrum_vm.Prelude.{
  ℕ, zero, suc, ◌+◌, ◌-◌, ◌^◌, ◌%◌, ◌≤◌, ◌<◌, ◌≡◌, refl, ap, ap₂, ◌∙◌, List, [], ◌∷◌, ◌++◌, length,
  take, drop, arith, ok, Build, sub_word_exact, u64_mod, u32_mod,
}
use ferrum_vm.Prelude.Bytes.{le_bytes, from_le, from_le-le_bytes}
use ferrum_vm.Acpi.{Binary, binary}
use ferrum_vm.Config.{
  MemMap, MemoryRegionConfig, map_bytes, header_bytes, entry, as_u32, entries, insert,
  sort_by_start, all_bytes, memmap_bytes, inject_memmap,
}

-- The regions follow one another without a gap or an overlap, from `start` to `end`.
unfoldable pub Tiles : ℕ → List MemMap → ℕ → Type 0
Tiles start [] end = start ≡ end
Tiles start (m ∷ ms) end = (m.start ≡ start) × (start ≤ m.end) × Tiles m.end ms end

few : (ram_end : ℕ) → length (sort_by_start (entries ram_end)) < 256 ^ 4
unfolding sort_by_start insert entries entry
few ram_end = omega arith

entries-Tiles :
    (ram_end : ℕ)
    → 0xFEE01000 ≤ ram_end
    → Tiles 0 (take 10 (sort_by_start (entries ram_end))) ram_end
unfolding Tiles sort_by_start insert entries entry
entries-Tiles ram_end h = (
  refl,
  omega arith,
  (
    refl,
    omega arith,
    (
      refl,
      omega arith,
      (
        refl,
        omega arith,
        (
          refl,
          omega arith,
          (
            refl,
            omega arith,
            (refl, omega arith, (refl, omega arith, (refl, omega arith, (refl, h, refl)))),
          ),
        ),
      ),
    ),
  ),
)

-- How the firmware reads `n` entries.
unfoldable pub read_entries : ℕ → List ℕ → List MemMap
read_entries zero bytes = []
read_entries (suc n) bytes =
    record {
      start = from_le (take 8 bytes);
      end = from_le (take 8 (drop 8 bytes));
      mem_type = from_le (take 4 (drop 16 bytes));
    }
    ∷ read_entries n (drop 20 bytes)

-- The map behind a header with the magic number, which gives the number of its entries.
unfoldable pub read_map : List ℕ → ℕ × List MemMap
read_map bytes =
    (from_le (take 4 bytes), read_entries (from_le (take 4 (drop 4 bytes))) (drop 8 bytes))

-- Each field fits into its word.
AllFit : List MemMap → Type 0
AllFit [] = Unit {0}
AllFit (m ∷ ms) = (m.start < 256 ^ 8) × (m.end < 256 ^ 8) × (m.mem_type < 256 ^ 4) × AllFit ms

same_entry :
    (m : MemMap) (start end mem_type : ℕ)
    → start ≡ m.start
    → end ≡ m.end
    → mem_type ≡ m.mem_type
    → record { start = start; end = end; mem_type = mem_type } ≡ m
same_entry m start end mem_type e₁ e₂ e₃ = rw (e₁, e₂, e₃) refl

read_entries-all_bytes :
    (ms : List MemMap) → AllFit ms → read_entries (length ms) (all_bytes ms) ≡ ms
unfolding read_entries all_bytes map_bytes AllFit
read_entries-all_bytes [] h = refl
read_entries-all_bytes (m ∷ ms) (h₁, h₂, h₃, h) =
    ap₂ ◌∷◌
      (same_entry m _ _ _ (from_le-le_bytes 8 m.start h₁) (from_le-le_bytes 8 m.end h₂)
        (from_le-le_bytes 4 m.mem_type h₃))
      (read_entries-all_bytes ms h)

read_map-memmap_bytes :
    (ms : List MemMap)
    → length ms < 256 ^ 4
    → AllFit ms
    → read_map (memmap_bytes ms) ≡ (0xFE02FE02, ms)
unfolding read_map memmap_bytes header_bytes
read_map-memmap_bytes ms l h =
    let count : from_le (le_bytes 4 (length ms % u32_mod)) ≡ length ms =
      from_le-le_bytes 4 (length ms % u32_mod) (omega arith) ∙ omega arith in
    ap₂ (λ (x : ℕ) (ys : List MemMap). (x, ys)) (from_le-le_bytes 4 0xFE02FE02 (omega arith))
      (ap (λ (n : ℕ). read_entries n (all_bytes ms)) count ∙ read_entries-all_bytes ms h)

entries-AllFit : (ram_end : ℕ) → ram_end < u64_mod → AllFit (sort_by_start (entries ram_end))
unfolding AllFit sort_by_start insert entries entry as_u32
entries-AllFit ram_end h = (
  omega arith,
  omega arith,
  omega arith,
  (
    omega arith,
    omega arith,
    omega arith,
    (
      omega arith,
      omega arith,
      omega arith,
      (
        omega arith,
        omega arith,
        omega arith,
        (
          omega arith,
          omega arith,
          omega arith,
          (
            omega arith,
            omega arith,
            omega arith,
            (
              omega arith,
              omega arith,
              omega arith,
              (
                omega arith,
                omega arith,
                omega arith,
                (
                  omega arith,
                  omega arith,
                  omega arith,
                  (
                    omega arith,
                    omega arith,
                    omega arith,
                    (omega arith, omega arith, omega arith, tt),
                  ),
                ),
              ),
            ),
          ),
        ),
      ),
    ),
  ),
)

length-memmap : (ram_end : ℕ) → length (memmap_bytes (sort_by_start (entries ram_end))) ≡ 228
unfolding memmap_bytes header_bytes all_bytes map_bytes sort_by_start insert entries entry as_u32
length-memmap ram_end = refl

-- For a first region whose size less its offset reaches past the interrupt controllers and fits into
-- 64 bits, one binary of 228 bytes is added, at 0x7000, and the firmware reads from it the magic number
-- and a map whose first ten entries tile the RAM from 0 up to that end, without a gap or an overlap.
pub inject_memmap-Tiles :
    (b : Build) (r : MemoryRegionConfig) (rs : List MemoryRegionConfig) (binaries : List Binary)
    → 0xFEE01000 + r.mem_offset ≤ r.mem_size
    → r.mem_size < u64_mod
    → (bytes : List ℕ) × (ms : List MemMap) × (inject_memmap b (r ∷ rs) binaries
        ≡ ok (binaries ++ (binary bytes 0x7000 ∷ [])))
      × (read_map bytes ≡ (0xFE02FE02, ms))
      × Tiles 0 (take 10 ms) (r.mem_size - r.mem_offset)
      × (length bytes ≡ 228)
unfolding inject_memmap
inject_memmap-Tiles b r rs binaries h fits =
    let ram_end = r.mem_size - r.mem_offset in
    let ms = sort_by_start (entries ram_end) in
    (
      memmap_bytes ms,
      ms,
      rw (sub_word_exact b u64_mod r.mem_size r.mem_offset (omega arith)) refl,
      read_map-memmap_bytes ms (few ram_end) (entries-AllFit ram_end (omega arith)),
      entries-Tiles ram_end (omega arith),
      length-memmap ram_end,
    )

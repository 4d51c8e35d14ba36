-- ===== src/Memory/Unbacked.antt =====
-- Accesses above the end of a region, in src/devices/virtio/virtio.rs: the bounds test computes
-- `size - (addr - start)`, which overflows there.
use ferrum_vm.Prelude.{
  ℕ, ◌+◌, ◌≤◌, ◌<◌, ◌≡◌, arith, List, ◌∷◌, length, ok, panic, Build, debug, release, u64_mod,
}
use ferrum_vm.Memory.{MemoryRegion, GuestMemory, fits, read_u32, write_guest_memory}

module _ (r : MemoryRegion) (a : ℕ) (above : r.mem_offset + r.mem_size < a) where
  fits_above_debug : (n : ℕ) → fits debug r a n ≡ panic
  unfolding fits
  fits_above_debug n = ground arith

write_above_region :
    (r : MemoryRegion) (rs : GuestMemory) (a : ℕ) (xs : List ℕ)
    → r.mem_offset + r.mem_size < a
    → a + length xs ≤ u64_mod
    → (write_guest_memory debug (r ∷ rs) a xs ≡ panic)
      × (write_guest_memory release (r ∷ rs) a xs ≡ ok (r ∷ rs))
unfolding write_guest_memory
write_above_region r rs a xs above top = (ground arith, ground arith)

read_u32_above_region :
    (b : Build) (r : MemoryRegion) (rs : GuestMemory) (a : ℕ)
    → r.mem_offset + r.mem_size < a
    → a + 4 ≤ u64_mod
    → read_u32 b (r ∷ rs) a ≡ panic
unfolding read_u32
read_u32_above_region debug r rs a above top = ground arith
read_u32_above_region release r rs a above top = ground arith

-- Whatever regions follow the first one: a write that starts above its end is never carried out, as
-- the debug build panics, and the release build drops the bytes and returns; and a 32-bit read that
-- starts above its end panics in both builds.
pub access_above_region :
    (b : Build) (r : MemoryRegion) (rs : GuestMemory) (a : ℕ) (xs : List ℕ)
    → r.mem_offset + r.mem_size < a
    → a + length xs ≤ u64_mod
    → a + 4 ≤ u64_mod
    → (write_guest_memory debug (r ∷ rs) a xs ≡ panic)
      × (write_guest_memory release (r ∷ rs) a xs ≡ ok (r ∷ rs))
      × (read_u32 b (r ∷ rs) a ≡ panic)
access_above_region b r rs a xs above top top₄ =
    let (checked, wrapped) = write_above_region r rs a xs above top in
    (checked, wrapped, read_u32_above_region b r rs a above top₄)

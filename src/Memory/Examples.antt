-- ===== src/Memory/Examples.antt =====
-- Runs of the memory handle (src/devices/virtio/virtio.rs).
use ferrum_vm.Prelude.{◌≡◌, refl, inl, false, [], ◌∷◌, arith, ok, panic, ◌>>=◌, debug, release}
use ferrum_vm.Memory.{
  GuestMemory, MemoryRegion, write_guest_memory, read_guest_memory_alloc, read_u32,
}
use ferrum_vm.Memory.RoundTrip.{write_guest_memory-read_back, write_guest_memory-read-Apart}
use ferrum_vm.Memory.Unbacked.{access_above_region}

abbrev low_region : MemoryRegion
low_region = record { ptr_is_null = false; cells = λ i. i; mem_size = 4096; mem_offset = 0 }

abbrev high_region : MemoryRegion
high_region = record { ptr_is_null = false; cells = λ i. 7; mem_size = 4096; mem_offset = 8192 }

abbrev ram : GuestMemory
ram = low_region ∷ high_region ∷ []

write_guest_memory-read_back_example :
    (do
      mem ← write_guest_memory debug ram 16 (1 ∷ 2 ∷ 3 ∷ [])
      read_guest_memory_alloc debug mem 16 3)
    ≡ ok (1 ∷ 2 ∷ 3 ∷ [])
write_guest_memory-read_back_example =
    write_guest_memory-read_back debug ram 16 (1 ∷ 2 ∷ 3 ∷ [])
      (inl (refl, omega arith, omega arith))

write_guest_memory-read-Apart_example :
    (do
      mem ← write_guest_memory debug ram 16 (1 ∷ 2 ∷ 3 ∷ [])
      read_guest_memory_alloc debug mem 19 2)
    ≡ read_guest_memory_alloc debug ram 19 2
write_guest_memory-read-Apart_example =
    write_guest_memory-read-Apart debug ram 16 (1 ∷ 2 ∷ 3 ∷ [])
      (inl (refl, omega arith, omega arith)) 19 2 (inl (refl, omega arith, omega arith))
      (ground arith)

-- The second region holds the bytes, and the first one's test fails on them.
access_above_region_example :
    (write_guest_memory debug ram 8192 (1 ∷ []) ≡ panic)
    × (write_guest_memory release ram 8192 (1 ∷ []) ≡ ok ram)
    × (read_u32 release ram 8192 ≡ panic)
access_above_region_example =
    access_above_region release low_region (high_region ∷ []) 8192 (1 ∷ []) (omega arith)
      (omega arith) (omega arith)

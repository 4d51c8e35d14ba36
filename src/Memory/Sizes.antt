-- ===== src/Memory/Sizes.antt =====
-- How many bytes a read of guest RAM returns (src/devices/virtio/virtio.rs).
use ferrum_vm.Prelude.{ℕ, ◌≡◌, List, [], ◌∷◌, length, length-replicate, arith, ok, Build, ◌-◌}
use ferrum_vm.Memory.{GuestMemory, read, read_regions, read_guest_memory_alloc}
use ferrum_vm.Memory.Held.{length-load}

length-read_regions :
    (b : Build) (mem : GuestMemory) (a n : ℕ) (xs : List ℕ)
    → read_regions b mem a n ≡ ok xs
    → length xs ≡ n
unfolding read_regions read
length-read_regions b [] a n xs h = grind (arith, length-replicate {A = ℕ} n 0)
length-read_regions b (r ∷ rs) a n xs h =
    grind (arith, length-read_regions b rs a n xs, length-load r.cells (a - r.mem_offset) n)

-- A read that returns, returns as many bytes as it was asked for.
pub length-read_guest_memory_alloc :
    (b : Build) (mem : GuestMemory) (a n : ℕ) (xs : List ℕ)
    → read_guest_memory_alloc b mem a n ≡ ok xs
    → length xs ≡ n
unfolding read_guest_memory_alloc
length-read_guest_memory_alloc b mem a n xs h = grind (arith, length-read_regions b mem a n xs)

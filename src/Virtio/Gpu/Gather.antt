-- ===== src/Virtio/Gpu/Gather.antt =====
-- `gather_control_request` and `write_response` of src/devices/virtio/devices/gpu.rs.
use ferrum_vm.Prelude.{
  ℕ, zero, suc, ◌+◌, bit_and, Bool, true, false, ◌||◌, Option, none, some, List, [], ◌++◌, length,
  is_empty, ◌==◌, ◌!=◌, ltb, leb, if◌then◌else◌, Result, ok, ◌>>=◌, Build, u64_mod,
}
use ferrum_vm.Memory.{GuestMemory, read_guest_memory_alloc, write_guest_memory}
use ferrum_vm.Virtqueue.{VirtioQueue, VirtqDesc, get_descriptor}
use ferrum_vm.Virtio.Gpu.{max_request_bytes}
use ferrum_vm.Virtio.Gpu.Wire.{new_hdr, hdr_to_bytes}
use ferrum_vm.Virtio.Gpu.Resource.{saturating_add}
pub mod Chain

-- The loop, with the rounds left, at descriptor `index`.
unfoldable pub gather_from :
    Build → GuestMemory → VirtioQueue → ℕ → ℕ → List ℕ → Result (Option (List ℕ × VirtqDesc))
gather_from b mem q zero index request = ok none
gather_from b mem q (suc rounds) index request = do
  desc ← get_descriptor b mem q index
  if bit_and desc.flags 2 != 0
      then (if is_empty request then ok none else ok (some (request, desc)))
      else if ltb max_request_bytes (saturating_add u64_mod (length request) desc.len)
      then ok none
      else (do
        chunk ← read_guest_memory_alloc b mem desc.addr desc.len
        elim (bit_and desc.flags 1 == 0 || leb q.size desc.next) [
          | true ↦ ok none
          | false ↦ gather_from b mem q rounds desc.next (request ++ chunk)
        ])

unfoldable pub gather_control_request :
    Build → GuestMemory → VirtioQueue → ℕ → Result (Option (List ℕ × VirtqDesc))
gather_control_request b mem q head = gather_from b mem q q.size head []

-- The bytes written to the descriptor, and how many: 0 where it is not writable or too short.
unfoldable pub write_body : Build → GuestMemory → VirtqDesc → List ℕ → Result (ℕ × GuestMemory)
write_body b mem desc buf =
    if bit_and desc.flags 2 == 0 || ltb desc.len (length buf)
    then ok (0, mem)
    else (do mem' ← write_guest_memory b mem desc.addr buf; ok (length buf, mem'))

unfoldable pub write_response : Build → GuestMemory → VirtqDesc → ℕ → Result (ℕ × GuestMemory)
write_response b mem desc typ = write_body b mem desc (hdr_to_bytes (new_hdr typ))

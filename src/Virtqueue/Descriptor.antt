-- ===== src/Virtqueue/Descriptor.antt =====
-- `get_descriptor` of src/devices/virtio/virtio.rs: the descriptor table.
use ferrum_vm.Prelude.{ℕ, ◌+◌, ◌*◌, ◌≤◌, ◌≡◌, refl, arith, ok, Build, add_word_exact, u64_mod}
use ferrum_vm.Memory.{GuestMemory}
use ferrum_vm.Memory.RoundTrip.{Backed}
use ferrum_vm.Memory.Words.{peek_word, read_u16-eq-peek, read_u32-eq-peek, read_u64-eq-peek}
use ferrum_vm.Virtqueue.{VirtioQueue, VirtqDesc, get_descriptor}

abbrev pub desc_base : VirtioQueue → ℕ → ℕ
desc_base q index = q.desc_addr + index * 16

-- The entry of the table lies in guest RAM.
pub record HasDesc (mem : GuestMemory) (q : VirtioQueue) (index : ℕ) : Type 0 where
  pub in_space : desc_base q index + 16 ≤ u64_mod
  pub addr_backed : Backed mem (desc_base q index) 8
  pub len_backed : Backed mem (desc_base q index + 8) 4
  pub flags_backed : Backed mem (desc_base q index + 12) 2
  pub next_backed : Backed mem (desc_base q index + 14) 2

-- The entry.
abbrev pub desc_at : GuestMemory → VirtioQueue → ℕ → VirtqDesc
desc_at mem q index = record {
  addr = peek_word 8 mem (desc_base q index);
  len = peek_word 4 mem (desc_base q index + 8);
  flags = peek_word 2 mem (desc_base q index + 12);
  next = peek_word 2 mem (desc_base q index + 14);
}

pub get_descriptor_lem :
    (b : Build) (mem : GuestMemory) (q : VirtioQueue) (index : ℕ)
    → HasDesc mem q index
    → get_descriptor b mem q index ≡ ok (desc_at mem q index)
unfolding get_descriptor
get_descriptor_lem b mem q index h =
    let base = desc_base q index in
    rw
      (
        add_word_exact b u64_mod q.desc_addr (index * 16) (omega (arith, h.in_space)),
        read_u64-eq-peek b mem base h.addr_backed,
        add_word_exact b u64_mod base 8 (omega (arith, h.in_space)),
        read_u32-eq-peek b mem (base + 8) h.len_backed,
        add_word_exact b u64_mod base 12 (omega (arith, h.in_space)),
        read_u16-eq-peek b mem (base + 12) h.flags_backed,
        add_word_exact b u64_mod base 14 (omega (arith, h.in_space)),
        read_u16-eq-peek b mem (base + 14) h.next_backed,
      )
      refl

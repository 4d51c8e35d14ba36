-- ===== src/Virtqueue/Used.antt =====
-- `push_used` of src/devices/virtio/virtio.rs: the used ring.
use ferrum_vm.Prelude.{
  ℕ, ◌+◌, ◌*◌, ◌%◌, ◌≤◌, ◌<◌, ◌≡◌, ◌≢◌, refl, arith, ok, Build, add_word_exact, u16_mod, u64_mod,
  ==_of_ne,
}
use ferrum_vm.Memory.{GuestMemory}
use ferrum_vm.Memory.RoundTrip.{Backed}
use ferrum_vm.Memory.Words.{poke_word, write_u16-eq-poke, write_u32-eq-poke, poke_word-Backed}
use ferrum_vm.Virtqueue.{VirtioQueue, push_used}

-- The queue after one entry is returned.
abbrev pub advance_used : VirtioQueue → VirtioQueue
advance_used q = record q { last_used_idx = (q.last_used_idx + 1) % u16_mod }

-- The address of the next used entry.
abbrev pub used_slot : VirtioQueue → ℕ
used_slot q = q.used_addr + (4 + (q.last_used_idx % q.size) * 8)

-- A call that returns, whatever the memory holds, has advanced the index by one.
pub push_used-advances :
    (b : Build) (mem : GuestMemory) (q : VirtioQueue) (head len : ℕ) {r : GuestMemory × VirtioQueue}
    → q.size ≢ 0
    → push_used b mem q head len ≡ ok r
    → r.1 ≡ advance_used q
unfolding push_used
push_used-advances b mem q head len pos h = ground arith

-- The used ring of a queue of positive size lies in guest RAM.
pub record HasUsed (mem : GuestMemory) (q : VirtioQueue) : Type 0 where
  pub size_pos : 0 < q.size
  pub in_space : q.used_addr + (4 + q.size * 8) ≤ u64_mod
  pub idx_backed : Backed mem (q.used_addr + 2) 2
  pub slot_backed :
      (i : ℕ)
      → i < q.size
      → Backed mem (q.used_addr + (4 + i * 8)) 4 × Backed mem (q.used_addr + (4 + i * 8) + 4) 4

mod-lt-size : (i n : ℕ) → 0 < n → i % n < n
mod-lt-size i n h = omega arith

-- The memory after the three writes.
abbrev pub returned : GuestMemory → VirtioQueue → ℕ → ℕ → GuestMemory
returned mem q head len =
    poke_word 2 (poke_word 4 (poke_word 4 mem (used_slot q) head) (used_slot q + 4) len)
      (q.used_addr + 2) ((q.last_used_idx + 1) % u16_mod)

module _ (b : Build) (mem : GuestMemory) (q : VirtioQueue) (head len : ℕ) (v : HasUsed mem q) where
  -- On a used ring of positive size in guest RAM `push_used` returns in both builds: it has put the
  -- head and the length into the slot of its index, published the next index, and advanced to it.
  pub push_used-eq : push_used b mem q head len ≡ ok (returned mem q head len, advance_used q)
  unfolding push_used
  push_used-eq =
      let i = q.last_used_idx % q.size in
      let i_in : i < q.size = mod-lt-size q.last_used_idx q.size v.size_pos in
      let mem₁ = poke_word 4 mem (used_slot q) head in
      let mem₂ = poke_word 4 mem₁ (used_slot q + 4) len in
      rw
        (
          ==_of_ne q.size 0 (omega (arith, v.size_pos)),
          add_word_exact b u64_mod q.used_addr (4 + i * 8) (omega (arith, v.in_space, i_in)),
          write_u32-eq-poke b mem (used_slot q) head ((v.slot_backed i i_in).0),
          add_word_exact b u64_mod (used_slot q) 4 (omega (arith, v.in_space, i_in)),
          write_u32-eq-poke b mem₁ (used_slot q + 4) len
              (poke_word-Backed 4 mem _ head _ 4 ((v.slot_backed i i_in).1)),
          add_word_exact b u64_mod q.used_addr 2 (omega (arith, v.in_space, v.size_pos)),
          write_u16-eq-poke b mem₂ (q.used_addr + 2) ((q.last_used_idx + 1) % u16_mod)
              (poke_word-Backed 4 mem₁ _ len _ 2 (poke_word-Backed 4 mem _ head _ 2 v.idx_backed)),
        )
        refl

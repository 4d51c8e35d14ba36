-- ===== src/Virtqueue/Avail.antt =====
-- `pop_avail` of src/devices/virtio/virtio.rs: the available ring.
use ferrum_vm.Prelude.{
  ℕ, ◌+◌, ◌-◌, ◌*◌, ◌%◌, ◌≤◌, ◌<◌, ◌≡◌, ◌≢◌, refl, Option, none, some, ◌==◌, if◌then◌else◌, arith,
  ok, Build, add_word_exact, u16_mod, u64_mod, ==_of_ne, List, [], ◌∷◌, zero, suc,
}
use ferrum_vm.Memory.{GuestMemory}
use ferrum_vm.Memory.RoundTrip.{Backed}
use ferrum_vm.Memory.Words.{peek_word, read_u16-eq-peek}
use ferrum_vm.Virtqueue.{VirtioQueue, pop_avail}

-- The queue after one entry is taken.
abbrev pub advance : VirtioQueue → VirtioQueue
advance q = record q { last_avail_idx = (q.last_avail_idx + 1) % u16_mod }

-- What the driver has published: its index, and the entry of a running index.
abbrev pub driver_idx : GuestMemory → VirtioQueue → ℕ
driver_idx mem q = peek_word 2 mem (q.avail_addr + 2)

abbrev pub ring_entry : GuestMemory → VirtioQueue → ℕ → ℕ
ring_entry mem q idx = peek_word 2 mem (q.avail_addr + (4 + (idx % q.size) * 2))

-- The ring of a queue of positive size lies in guest RAM.
pub record HasAvail (mem : GuestMemory) (q : VirtioQueue) : Type 0 where
  pub size_pos : 0 < q.size
  pub in_space : q.avail_addr + (4 + q.size * 2) ≤ u64_mod
  pub idx_backed : Backed mem (q.avail_addr + 2) 2
  pub slot_backed : (i : ℕ) → i < q.size → Backed mem (q.avail_addr + (4 + i * 2)) 2

mod-lt-size : (i n : ℕ) → 0 < n → i % n < n
mod-lt-size i n h = omega arith

-- On such a ring `pop_avail` returns, in both builds: nothing where the driver's index has not
-- moved past the queue's, and otherwise the entry of the queue's index, which advances by one.
pub pop_avail_lem :
    (b : Build) (mem : GuestMemory) (q : VirtioQueue)
    → HasAvail mem q
    → pop_avail b mem q ≡ (
        if q.last_avail_idx == driver_idx mem q
        then ok (none, q)
        else ok (some (ring_entry mem q q.last_avail_idx), advance q))
unfolding pop_avail
pop_avail_lem b mem q v =
    let slot_in = mod-lt-size q.last_avail_idx q.size v.size_pos in
    rw
      (
        ==_of_ne q.size 0 (omega arith),
        add_word_exact b u64_mod q.avail_addr 2 (omega (arith, v.in_space, v.size_pos)),
        read_u16-eq-peek b mem (q.avail_addr + 2) v.idx_backed,
        add_word_exact b u64_mod q.avail_addr (4 + (q.last_avail_idx % q.size) * 2)
            (omega (arith, v.in_space, slot_in)),
        read_u16-eq-peek b mem (q.avail_addr + (4 + (q.last_avail_idx % q.size) * 2))
            (v.slot_backed (q.last_avail_idx % q.size) slot_in),
      )
      refl

-- What a call that returns has done, whatever the memory holds: nothing, or one entry taken.
abbrev pub Popped : VirtioQueue → Option ℕ → VirtioQueue → Type 0
Popped q none q' = q' ≡ q
Popped q (some head) q' = (q.size ≢ 0) × (q' ≡ advance q)

pub pop_avail-Popped :
    (b : Build) (mem : GuestMemory) (q : VirtioQueue) (popped : Option ℕ) (q' : VirtioQueue)
    → pop_avail b mem q ≡ ok (popped, q')
    → Popped q popped q'
unfolding pop_avail
pop_avail-Popped b mem q none q' h = ground arith
pop_avail-Popped b mem q (some head) q' h = ground arith

-- How many entries the driver has published and the device has not taken.
abbrev pub pending : GuestMemory → VirtioQueue → ℕ
pending mem q = (driver_idx mem q + u16_mod - q.last_avail_idx) % u16_mod

-- The next `n` entries of the ring, in its order.
abbrev pub ring_entries : GuestMemory → VirtioQueue → ℕ → List ℕ
ring_entries mem q zero = []
ring_entries mem q (suc n) = ring_entry mem q q.last_avail_idx ∷ ring_entries mem (advance q) n

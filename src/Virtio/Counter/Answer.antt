-- ===== src/Virtio/Counter/Answer.antt =====
-- What the counter device answers (src/devices/virtio/devices/counter.rs).
use ferrum_vm.Prelude.{
  ℕ, ◌+◌, ◌<◌, ◌≡◌, refl, bit_and, false, true, ◌||◌, ◌==◌, ok, Build, add_word_exact, u32_mod,
}
use ferrum_vm.Memory.{GuestMemory}
use ferrum_vm.Memory.RoundTrip.{Backed}
use ferrum_vm.Memory.Words.{
  peek_word, poke_word, read_u32-eq-peek, write_u32-eq-poke, poke_word-Backed,
}
use ferrum_vm.Virtqueue.{VirtioQueue}
use ferrum_vm.Virtqueue.Descriptor.{HasDesc, desc_at, get_descriptor_lem}
use ferrum_vm.Virtqueue.Used.{HasUsed, push_used-eq, returned, advance_used}
use ferrum_vm.Virtqueue.Loop.{Io}
use ferrum_vm.Virtio.Counter.{CntVirtio, request}

HasUsed-poke_word :
    (mem : GuestMemory) (q : VirtioQueue) (k a v : ℕ)
    → HasUsed mem q
    → HasUsed (poke_word k mem a v) q
HasUsed-poke_word mem q k a v h = record {
  size_pos = h.size_pos;
  in_space = h.in_space;
  idx_backed = poke_word-Backed k mem a v _ 2 h.idx_backed;
  slot_backed = λ i l. (
    poke_word-Backed k mem a v _ 4 (h.slot_backed i l).0,
    poke_word-Backed k mem a v _ 4 (h.slot_backed i l).1,
  );
}

-- A request is well formed: two descriptors in guest RAM, the first flagged as the code demands, each
-- with a word of guest RAM behind it, and a used ring.
pub record IsRequest (s : Io CntVirtio) (head : ℕ) : Type 0 where
  pub has_input : HasDesc s.mem s.queue head
  pub flagged :
      (bit_and (desc_at s.mem s.queue head).flags 2 == 0
        || bit_and (desc_at s.mem s.queue head).flags 1 == 0)
      ≡ false
  pub has_output : HasDesc s.mem s.queue (desc_at s.mem s.queue head).next
  pub input_backed : Backed s.mem (desc_at s.mem s.queue head).addr 4
  pub output_backed : Backed s.mem (desc_at s.mem s.queue (desc_at s.mem s.queue head).next).addr 4
  pub has_used : HasUsed s.mem s.queue

-- For a well-formed request whose input is below the largest 32-bit word the device returns in both
-- builds: it has put the input plus one behind the second descriptor and returned the head with the
-- first descriptor's length on the used ring, and nothing else.
pub request_lem :
    (b : Build) (s : Io CntVirtio) (head : ℕ)
    → IsRequest s head
    → peek_word 4 s.mem (desc_at s.mem s.queue head).addr + 1 < u32_mod
    → request b s head
      ≡ ok (
        true,
        record s {
          mem =
              returned
                (poke_word 4 s.mem
                  (desc_at s.mem s.queue (desc_at s.mem s.queue head).next).addr
                  (peek_word 4 s.mem (desc_at s.mem s.queue head).addr + 1))
                s.queue
                head
                (desc_at s.mem s.queue head).len;
          queue = advance_used s.queue;
        },
      )
unfolding request
request_lem b s head h small =
    let d = desc_at s.mem s.queue head in
    let d₂ = desc_at s.mem s.queue d.next in
    let output = peek_word 4 s.mem d.addr + 1 in
    rw
      (
        get_descriptor_lem b s.mem s.queue head h.has_input,
        h.flagged,
        get_descriptor_lem b s.mem s.queue d.next h.has_output,
        read_u32-eq-peek b s.mem d.addr h.input_backed,
        add_word_exact b u32_mod (peek_word 4 s.mem d.addr) 1 small,
        write_u32-eq-poke b s.mem d₂.addr output h.output_backed,
        push_used-eq b (poke_word 4 s.mem d₂.addr output) s.queue head d.len
            (HasUsed-poke_word s.mem s.queue 4 d₂.addr output h.has_used),
      )
      refl

-- ===== src/Virtqueue/Examples.antt =====
-- Runs of the split virtqueue (src/devices/virtio/virtio.rs).
use ferrum_vm.Prelude.{
  ◌≡◌, refl, inl, false, true, [], ◌∷◌, arith, ok, debug, some, none, ◌==◌, if◌then◌else◌,
}
use ferrum_vm.Memory.{GuestMemory, MemoryRegion, store}
use ferrum_vm.Virtqueue.{VirtioQueue, pop_avail, push_used}
use ferrum_vm.Virtqueue.Avail.{HasAvail, pop_avail_lem, advance, driver_idx, ring_entry}
use ferrum_vm.Virtqueue.Used.{HasUsed, push_used-eq, returned, advance_used}

-- A ring of four entries whose driver has published two, the heads 3 and 1.
abbrev ring : MemoryRegion
ring = record {
  ptr_is_null = false;
  cells = store (λ i. 0) 258 (2 ∷ 0 ∷ 3 ∷ 0 ∷ 1 ∷ 0 ∷ []);
  mem_size = 4096;
  mem_offset = 0;
}

abbrev ram : GuestMemory
ram = ring ∷ []

abbrev queue : VirtioQueue
queue = record {
  size = 4;
  ready = true;
  desc_addr = 0;
  avail_addr = 256;
  used_addr = 512;
  last_avail_idx = 0;
  last_used_idx = 0;
}

queue-HasAvail : HasAvail ram queue
queue-HasAvail = record {
  size_pos = omega arith;
  in_space = omega arith;
  idx_backed = inl (refl, omega arith, omega arith);
  slot_backed = λ i h. inl (refl, omega arith, omega arith);
}

queue-HasUsed : HasUsed ram queue
queue-HasUsed = record {
  size_pos = omega arith;
  in_space = omega arith;
  idx_backed = inl (refl, omega arith, omega arith);
  slot_backed = λ i h. (inl (refl, omega arith, omega arith), inl (refl, omega arith, omega arith));
}

pop_avail_lem_example : pop_avail debug ram queue ≡ (
    if queue.last_avail_idx == driver_idx ram queue
    then ok (none, queue)
    else ok (some (ring_entry ram queue queue.last_avail_idx), advance queue))
pop_avail_lem_example = pop_avail_lem debug ram queue queue-HasAvail

push_used-eq_example :
    push_used debug ram queue 3 16 ≡ ok (returned ram queue 3 16, advance_used queue)
push_used-eq_example = push_used-eq debug ram queue 3 16 queue-HasUsed

-- ===== src/Virtio/Net/Examples.antt =====
-- Two requests on the transmit queue (src/devices/virtio/devices/net.rs).
use ferrum_vm.Prelude.{ℕ, ◌≡◌, refl, inl, inr, true, false, none, [], ◌∷◌, ◌++◌, arith, debug}
use ferrum_vm.Prelude.Bytes.{le_bytes}
use ferrum_vm.Memory.{GuestMemory, store}
use ferrum_vm.Memory.RoundTrip.{peek}
use ferrum_vm.Virtqueue.{VirtioQueue}
use ferrum_vm.Virtqueue.Avail.{HasAvail}
use ferrum_vm.Virtqueue.Loop.{Io, while_avail}
use ferrum_vm.Virtqueue.Loop.Order.{for_each, while_avail_order}
use ferrum_vm.Virtqueue.Loop.Rings.{HasRings}
use ferrum_vm.Virtio.Net
use ferrum_vm.Virtio.Net.{NetVirtio, Tap, transmit, tick}
use ferrum_vm.Virtio.Net.Transmit.{transmit-keeps, tick_transmit_order}

-- The driver has published the heads 3, a frame of four bytes behind its header, and 1, whose buffer
-- is too short for a header.
abbrev ram : GuestMemory
ram =
    record {
      ptr_is_null = false;
      cells =
          store
            (store (store (λ i. 0) 258 (2 ∷ 0 ∷ 3 ∷ 0 ∷ 1 ∷ 0 ∷ [])) 48
              (le_bytes 8 1024 ++ (le_bytes 4 16 ++ (le_bytes 2 0 ++ le_bytes 2 0))))
            16 (le_bytes 8 1056 ++ (le_bytes 4 4 ++ (le_bytes 2 0 ++ le_bytes 2 0)));
      mem_size = 4096;
      mem_offset = 0;
    }
    ∷ []

abbrev queue : VirtioQueue
queue = record {
  size = 4;
  ready = true;
  desc_addr = 0;
  avail_addr = 256;
  used_addr = 512;
  last_avail_idx = 0;
  last_used_idx = 0;
}

abbrev silent : Tap ℕ
silent = record { recv = λ t. (none, t); send = λ t bytes. (true, t) }

abbrev net : Io (NetVirtio ℕ)
net = record {
  mem = ram;
  queue = queue;
  device = record {
    guest_memory = true;
    tap_device = record { tap = 0; packet_recive_queue = [] };
    config = Net.default_config;
  };
}

queue-HasAvail : HasAvail ram queue
queue-HasAvail = record {
  size_pos = omega arith;
  in_space = omega arith;
  idx_backed = inl (refl, omega arith, omega arith);
  slot_backed = λ i h. inl (refl, omega arith, omega arith);
}

queue-HasRings : HasRings ram queue
queue-HasRings = (
  record {
    size_pos = omega arith;
    in_space = omega arith;
    idx_backed = inl (refl, omega arith, omega arith);
    slot_backed =
        λ i h. (inl (refl, omega arith, omega arith), inl (refl, omega arith, omega arith));
  },
  inr (omega arith),
)

while_avail_order_example :
    while_avail debug 3 (transmit debug silent) net false
    ≡ for_each (transmit debug silent) (3 ∷ 1 ∷ []) net false
unfolding peek
while_avail_order_example =
    while_avail_order debug (transmit debug silent) (λ s. HasRings s.mem s.queue)
      (transmit-keeps debug silent) 3 net queue-HasRings queue-HasAvail (omega arith) (omega arith)
      (omega arith)

tick_transmit_order_example :
    tick debug silent 3 net 1 ≡ for_each (transmit debug silent) (3 ∷ 1 ∷ []) net false
unfolding peek
tick_transmit_order_example =
    tick_transmit_order debug silent 3 net refl queue-HasAvail queue-HasRings (omega arith)
      (omega arith) (omega arith)

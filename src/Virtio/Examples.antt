-- ===== src/Virtio/Examples.antt =====
-- Runs of the virtio devices (src/devices/virtio/devices).
use ferrum_vm.Prelude.{
  ◌≡◌, inl, arith, ℕ, refl, Bool, true, false, none, some, List, [], ◌∷◌, ◌++◌, replicate, Result,
  ok, panic, no_fuel, debug,
}
use ferrum_vm.Prelude.Bytes.{le_bytes}
use ferrum_vm.Memory.{
  GuestMemory, store, in_bounds, write, read, fits, read_word_bytes, read_u16, read_u32, read_u64,
  read_regions, read_guest_memory_alloc, write_guest_memory, write_u8, write_u16, write_u32,
}
use ferrum_vm.Virtqueue.{VirtioQueue, pop_avail, push_used, get_descriptor}
use ferrum_vm.Virtqueue.Loop.{Io, while_avail}
use ferrum_vm.Virtio.Counter
use ferrum_vm.Virtio.Counter.{CntVirtio}
use ferrum_vm.Virtio.Counter.Answer.{IsRequest, request_lem}
use ferrum_vm.Virtqueue.Used.{returned, advance_used}
use ferrum_vm.Memory.RoundTrip.{peek}
use ferrum_vm.Memory.Words.{poke_word}
use ferrum_vm.Virtio.Rng
use ferrum_vm.Virtio.Rng.{RngVirtio}
use ferrum_vm.Virtio.Blk
use ferrum_vm.Virtio.Blk.{BlkVirtio, BlockFile}
use ferrum_vm.Virtio.Blk.Batch.{IsBatch, tick-IsBatch}
use ferrum_vm.Virtio.Net
use ferrum_vm.Virtio.Net.{NetVirtio, Tap}
use ferrum_vm.Virtio.Net.Receive.{IsReceived, tick_receive-IsReceived}

abbrev desc : ℕ → ℕ → ℕ → ℕ → List ℕ
desc addr len flags next =
    le_bytes 8 addr ++ (le_bytes 4 len ++ (le_bytes 2 flags ++ le_bytes 2 next))

-- A chain of three descriptors, published as the first entry of a ring of four.
abbrev ram : GuestMemory
ram =
    record {
      ptr_is_null = false;
      cells =
          store (store (λ i. 0) 258 (1 ∷ 0 ∷ 0 ∷ 0 ∷ [])) 0
            (desc 1024 16 3 1 ++ (desc 1056 4 3 2 ++ desc 1064 1 2 0));
      mem_size = 4096;
      mem_offset = 0;
    }
    ∷ []

abbrev queue : VirtioQueue
queue = record {
  size = 4;
  ready = true;
  desc_addr = 0;
  avail_addr = 256;
  used_addr = 512;
  last_avail_idx = 0;
  last_used_idx = 0;
}

abbrev io : {D : Type 0} → D → Io D
io device = record { mem = ram; queue = queue; device = device }

-- What a run returned, or its start where it did not.
abbrev outcome : {A : Type 0} → Result A → A → A
outcome (ok a) start = a
outcome panic start = start
outcome no_fuel start = start

abbrev counter : Io CntVirtio
counter = io (record { guest_memory = true })

abbrev counted : Bool × Io CntVirtio
counted = outcome (Counter.tick debug 3 counter 0) (false, counter)

counter-IsRequest : IsRequest counter 0
unfolding peek
counter-IsRequest = record {
  has_input = record {
    in_space = omega arith;
    addr_backed = inl (refl, omega arith, omega arith);
    len_backed = inl (refl, omega arith, omega arith);
    flags_backed = inl (refl, omega arith, omega arith);
    next_backed = inl (refl, omega arith, omega arith);
  };
  flagged = refl;
  has_output = record {
    in_space = omega arith;
    addr_backed = inl (refl, omega arith, omega arith);
    len_backed = inl (refl, omega arith, omega arith);
    flags_backed = inl (refl, omega arith, omega arith);
    next_backed = inl (refl, omega arith, omega arith);
  };
  input_backed = inl (refl, omega arith, omega arith);
  output_backed = inl (refl, omega arith, omega arith);
  has_used = record {
    size_pos = omega arith;
    in_space = omega arith;
    idx_backed = inl (refl, omega arith, omega arith);
    slot_backed =
        λ i h. (inl (refl, omega arith, omega arith), inl (refl, omega arith, omega arith));
  };
}

-- The input is 0, and 1 is put at the address of the second descriptor.
request_lem_example :
    Counter.request debug counter 0
    ≡ ok (
      true,
      record counter {
        mem = returned (poke_word 4 ram 1056 1) queue 0 16;
        queue = advance_used queue;
      },
    )
unfolding peek
request_lem_example = request_lem debug counter 0 counter-IsRequest (omega arith)

abbrev sevens : ℕ → ℕ → List ℕ
sevens n len = replicate len 7

abbrev rng : Io RngVirtio
rng = io (record { guest_memory = true; draws = 0 })

abbrev drawn : Bool × Io RngVirtio
drawn = outcome (Rng.tick debug sevens 3 rng 0) (false, rng)

-- An image of nines, of any length; the file is the position.
abbrev nines : BlockFile ℕ
nines = record {
  seek = λ f pos. (true, pos);
  read_exact = λ f len. (some (replicate len 9), f);
  write_all = λ f bytes. (true, f);
}

abbrev blk : Io (BlkVirtio ℕ)
blk = io (record {
  guest_memory = true;
  blk_file = 0;
  config = record { capacity = 8; size_max = 1048576; seg_max = 128; blk_size = 512 };
})

abbrev batched : Bool × Io (BlkVirtio ℕ)
batched = outcome (Blk.tick debug nines blk 0) (false, blk)

tick-IsBatch_example : IsBatch 64 queue batched.1.queue
unfolding Blk.tick Blk.batch Blk.serve Blk.finish Blk.read_sectors Blk.write_sectors Blk.new_request
    while_avail pop_avail push_used get_descriptor in_bounds write read fits read_word_bytes
    read_u16 read_u32 read_u64 read_regions read_guest_memory_alloc write_guest_memory write_u8
    write_u16 write_u32
tick-IsBatch_example = tick-IsBatch debug nines blk 0 batched.0 batched.1 refl

-- An interface on which nothing arrives.
abbrev silent : Tap ℕ
silent = record { recv = λ t. (none, t); send = λ t bytes. (true, t) }

-- Two frames wait for the one buffer.
abbrev net : Io (NetVirtio ℕ)
net = io (record {
  guest_memory = true;
  tap_device = record { tap = 0; packet_recive_queue = (8 ∷ 9 ∷ []) ∷ (5 ∷ []) ∷ [] };
  config = Net.default_config;
})

abbrev received : Bool × Io (NetVirtio ℕ)
received = outcome (Net.tick debug silent 3 net 0) (false, net)

tick_receive-IsReceived_example :
    IsReceived ((8 ∷ 9 ∷ []) ∷ (5 ∷ []) ∷ []) queue received.1.queue ((5 ∷ []) ∷ [])
unfolding Net.tick Net.receive Net.deliver Net.add_packet_front while_avail pop_avail push_used
    get_descriptor in_bounds write read fits read_word_bytes read_u16 read_u32 read_u64 read_regions
    read_guest_memory_alloc write_guest_memory write_u8 write_u16 write_u32
tick_receive-IsReceived_example =
    tick_receive-IsReceived debug silent 3 net received.0 received.1 refl

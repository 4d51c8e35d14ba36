-- ===== src/Virtio/Counter.antt =====
-- The counter device: src/devices/virtio/devices/counter.rs.
pub mod Answer
use ferrum_vm.Prelude.{
  ℕ, ◌≡◌, bit_and, Bool, true, false, not, ◌||◌, [], ◌==◌, ◌!=◌, if◌then◌else◌, arith, Result, ok,
  panic, ◌>>=◌, Build, add_word, u32_mod, Bool-cases, inl, inr,
}
use ferrum_vm.Memory.{read_u32, write_u32}
use ferrum_vm.Virtqueue.{get_descriptor, push_used}
use ferrum_vm.Virtqueue.Used.{push_used-advances}
use ferrum_vm.Virtqueue.Loop.{Io, while_avail}
use ferrum_vm.Virtqueue.Loop.Balance.{IsBalanced, AnswersOne, while_avail-IsBalanced}
use ferrum_vm.Virtio.{VirtioDevice}

pub record CntVirtio : Type 0 where
  pub guest_memory : Bool  -- whether a handle was passed

abbrev pub new : CntVirtio
new = record { guest_memory = false }

module _ (b : Build) where
  -- The body of the loop of `tick`.
  unfoldable pub request : Io CntVirtio → ℕ → Result (Bool × Io CntVirtio)
  request s head = do
    desc ← get_descriptor b s.mem s.queue head
    if bit_and desc.flags 2 == 0 || bit_and desc.flags 1 == 0 then panic else (do
      desc2 ← get_descriptor b s.mem s.queue desc.next
      input ← read_u32 b s.mem desc.addr
      output ← add_word b u32_mod input 1
      mem ← write_u32 b s.mem desc2.addr output
      (mem', queue) ← push_used b mem s.queue head desc.len
      ok (true, record s { mem = mem'; queue = queue }))

  unfoldable pub tick : ℕ → Io CntVirtio → ℕ → Result (Bool × Io CntVirtio)
  tick fuel s queue_sel =
      if queue_sel != 0 || not s.device.guest_memory
      then ok (false, s)
      else while_avail b fuel request s false

  abbrev pub device : ℕ → VirtioDevice CntVirtio
  device fuel = record {
    virtio_type = λ d. 0x10;
    features = λ d. 0;
    negotiate_features = λ d features. d;
    pass_guest_memory = λ d. record { guest_memory = true };
    tick = tick fuel;
    read_config = λ d len. [];
    write_config = λ d offset bytes. d;
    update = λ d mem queues. ok (false, d, mem, queues);
    reset = λ d. d;
  }

  request-AnswersOne : AnswersOne request
  unfolding request
  request-AnswersOne s head w s' pos h = grind (arith, push_used-advances)

  -- Every request that a call of `tick` takes from the queue it returns on the used ring: the two
  -- indices of the queue advance by the same amount, for any content of guest RAM.
  cnt_tick-IsBalanced :
      (fuel : ℕ) (s : Io CntVirtio) (queue_sel : ℕ) (w : Bool) (s' : Io CntVirtio)
      → tick fuel s queue_sel ≡ ok (w, s')
      → IsBalanced s.queue s'.queue
  unfolding tick
  cnt_tick-IsBalanced fuel s queue_sel w s' h =
      elim (Bool-cases (queue_sel != 0 || not s.device.guest_memory)) [
        | inl e ↦ ground arith
        | inr e ↦
            while_avail-IsBalanced b request request-AnswersOne fuel s false w s' (ground arith)
      ]

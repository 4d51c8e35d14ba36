-- ===== src/Virtio/Rng.antt =====
-- The entropy device: src/devices/virtio/devices/rng.rs.
use ferrum_vm.Prelude.{
  ℕ, ◌+◌, ◌≡◌, bit_and, Bool, true, false, not, ◌||◌, List, [], ◌==◌, ◌!=◌, if◌then◌else◌, arith,
  Result, ok, panic, ◌>>=◌, Build, Bool-cases, inl, inr,
}
use ferrum_vm.Memory.{write_guest_memory}
use ferrum_vm.Virtqueue.{get_descriptor, push_used}
use ferrum_vm.Virtqueue.Used.{push_used-advances}
use ferrum_vm.Virtqueue.Loop.{Io, while_avail}
use ferrum_vm.Virtqueue.Loop.Balance.{IsBalanced, AnswersOne, while_avail-IsBalanced}
use ferrum_vm.Virtio.{VirtioDevice}

-- `draws` counts the calls of the random source, which is a parameter.
pub record RngVirtio : Type 0 where
  pub guest_memory : Bool  -- whether a handle was passed
  pub draws : ℕ

abbrev pub new : RngVirtio
new = record { guest_memory = false; draws = 0 }

-- `rand_bytes n len` stands for what the n-th call of `vmm_sys_util::rand::rand_bytes` returns.
module _ (b : Build) (rand_bytes : ℕ → ℕ → List ℕ) where
  unfoldable pub get_random : RngVirtio → ℕ → List ℕ × RngVirtio
  get_random d len = (rand_bytes d.draws len, record d { draws = d.draws + 1 })

  -- The body of the loop of `tick`.
  unfoldable pub request : Io RngVirtio → ℕ → Result (Bool × Io RngVirtio)
  request s head = do
    desc ← get_descriptor b s.mem s.queue head
    if bit_and desc.flags 2 == 0 then panic else (do
      let (bytes, d) = get_random s.device desc.len
      mem ← write_guest_memory b s.mem desc.addr bytes
      (mem', queue) ← push_used b mem s.queue head desc.len
      ok (true, record { mem = mem'; queue = queue; device = d }))

  unfoldable pub tick : ℕ → Io RngVirtio → ℕ → Result (Bool × Io RngVirtio)
  tick fuel s queue_sel =
      if queue_sel != 0 || not s.device.guest_memory
      then ok (false, s)
      else while_avail b fuel request s false

  abbrev pub device : ℕ → VirtioDevice RngVirtio
  device fuel = record {
    virtio_type = λ d. 0x04;
    features = λ d. 0;
    negotiate_features = λ d features. d;
    pass_guest_memory = λ d. record d { guest_memory = true };
    tick = tick fuel;
    read_config = λ d len. [];
    write_config = λ d offset bytes. d;
    update = λ d mem queues. ok (false, d, mem, queues);
    reset = λ d. d;
  }

  request-AnswersOne : AnswersOne request
  unfolding request
  request-AnswersOne s head w s' pos h = grind (arith, push_used-advances)

  -- Every buffer that a call of `tick` takes from the queue it returns on the used ring: the two
  -- indices of the queue advance by the same amount, for any content of guest RAM and any source.
  rng_tick-IsBalanced :
      (fuel : ℕ) (s : Io RngVirtio) (queue_sel : ℕ) (w : Bool) (s' : Io RngVirtio)
      → tick fuel s queue_sel ≡ ok (w, s')
      → IsBalanced s.queue s'.queue
  unfolding tick
  rng_tick-IsBalanced fuel s queue_sel w s' h =
      elim (Bool-cases (queue_sel != 0 || not s.device.guest_memory)) [
        | inl e ↦ ground arith
        | inr e ↦
            while_avail-IsBalanced b request request-AnswersOne fuel s false w s' (ground arith)
      ]

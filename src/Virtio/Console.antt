-- ===== src/Virtio/Console.antt =====
-- The console device: src/devices/virtio/devices/console.rs. It is a stub: both of its queues report
-- work and serve nothing.
use ferrum_vm.Prelude.{ℕ, Bool, true, false, replicate, ◌==◌, if◌then◌else◌, Result, ok}
use ferrum_vm.Virtqueue.Loop.{Io}
use ferrum_vm.Virtio.{VirtioDevice}

pub record ConsoleVirtio : Type 0 where
  pub guest_memory : Bool  -- whether a handle was passed

abbrev pub new : ConsoleVirtio
new = record { guest_memory = false }

unfoldable pub tick : Io ConsoleVirtio → ℕ → Result (Bool × Io ConsoleVirtio)
tick s queue_sel = if queue_sel == 0 then ok (true, s) else ok (queue_sel == 1, s)

abbrev pub device : VirtioDevice ConsoleVirtio
device = record {
  virtio_type = λ d. 0x3;
  features = λ d. 0;
  negotiate_features = λ d features. d;
  pass_guest_memory = λ d. record { guest_memory = true };
  tick = tick;
  read_config = λ d len. replicate len 0;
  write_config = λ d offset bytes. d;
  update = λ d mem queues. ok (false, d, mem, queues);
  reset = λ d. d;
}

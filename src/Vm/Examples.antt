-- ===== src/Vm/Examples.antt =====
-- Runs of the virtual machine (src/vm).
use ferrum_vm.Prelude.{ℕ, ◌≡◌, [], ◌∷◌, refl, ok, debug, replicate}
use ferrum_vm.DeviceMap.Io
use ferrum_vm.DeviceMap.Mmio
use ferrum_vm.Vm
use ferrum_vm.DeviceMap.Io.{IoDevice}
use ferrum_vm.DeviceMap.Mmio.{MmioDevice}
use ferrum_vm.Vm.Run.{Machine, filled, io_in, mmio_read, handle_exit}

abbrev echo : IoDevice ℕ ℕ
echo = record {
  input = λ d w port len. ok (replicate len port, d, w);
  output = λ d w port bytes. ok (d, w);
  irq_handler = λ d. d;
  tick = λ d w. ok (d, w);
}

abbrev zeros : MmioDevice ℕ ℕ
zeros = record {
  read = λ d w addr len. ok (replicate len 0, d, w);
  write = λ d w addr bytes. ok (d, w);
  tick = λ d w. ok (d, w);
  irq_handler = λ d. d;
  vm_fd = λ d. d;
  pass_guest_memory = λ d. d;
}

abbrev machine : Machine ℕ ℕ ℕ
machine = record {
  io_map = record { io_device = 0; start = 0x3F8; end = 0x3FF } ∷ [];
  mmio_map = record { mmio_device = 0; start = 0x400000000; end = 0x400000FFF } ∷ [];
  shared = 0;
}

unmapped_port :
    handle_exit debug echo zeros machine (io_in 0x80 1) ≡ ok (filled (0xFF ∷ []), machine)
unfolding handle_exit Vm.Run.answer Io.input Io.contains
unmapped_port = refl

unmapped_address :
    handle_exit debug echo zeros machine (mmio_read 0xD0000000 1) ≡ ok (filled (0 ∷ []), machine)
unfolding handle_exit Vm.Run.answer Mmio.read Mmio.contains
unmapped_address = refl

-- ===== src/DeviceMap/Examples.antt =====
-- Runs of the device maps (src/device_maps).
use ferrum_vm.Prelude.{ℕ, ◌+◌, ◌≡◌, inr, [], ◌∷◌, arith, ok, debug, some, true, replicate}
use ferrum_vm.DeviceMap.Io
use ferrum_vm.DeviceMap.Io.{IoDevice, IoDeviceRegion}
use ferrum_vm.DeviceMap.Mmio
use ferrum_vm.DeviceMap.Mmio.{MmioDevice, MmioDeviceRegion}
use ferrum_vm.DeviceMap.Routing.{input-output-routes, read-write-routes}

-- A device that counts its accesses; what is shared is the last offset accessed.
abbrev io_counter : IoDevice ℕ ℕ
io_counter = record {
  input = λ d w port len. ok (replicate len d, d + 1, port);
  output = λ d w port bytes. ok (d + 1, port);
  irq_handler = λ d. d;
  tick = λ d w. ok (d, w);
}

abbrev mmio_counter : MmioDevice ℕ ℕ
mmio_counter = record {
  read = λ d w addr len. ok (replicate len d, d + 1, addr);
  write = λ d w addr bytes. ok (d + 1, addr);
  tick = λ d w. ok (d, w);
  irq_handler = λ d. d;
  vm_fd = λ d. d;
  pass_guest_memory = λ d. d;
}

abbrev io_at : ℕ → ℕ → IoDeviceRegion ℕ
io_at start d = record { io_device = d; start = start; end = start + 7 }

abbrev mmio_at : ℕ → ℕ → MmioDeviceRegion ℕ
mmio_at start d = record { mmio_device = d; start = start; end = start + 0xFFF }

input-output-routes_example :
    (Io.input io_counter (io_at 0x70 1 ∷ io_at 0x3F8 5 ∷ []) 0 0x3FD 2
      ≡ ok (some (5 ∷ 5 ∷ []), io_at 0x70 1 ∷ io_at 0x3F8 6 ∷ [], 5))
    × (Io.output io_counter (io_at 0x70 1 ∷ io_at 0x3F8 5 ∷ []) 0 0x3FD (9 ∷ [])
        ≡ ok (true, io_at 0x70 1 ∷ io_at 0x3F8 6 ∷ [], 5))
input-output-routes_example =
    input-output-routes io_counter [] (io_at 0x3F8 5) 0 0x3FD (io_at 0x70 1 ∷ []) 2 (9 ∷ [])
      (inr (omega arith), tt) (omega arith) (omega arith)

read-write-routes_example :
    (Mmio.read debug mmio_counter (mmio_at 0x1000 1 ∷ mmio_at 0x3000 5 ∷ []) 0 0x3070 2
      ≡ ok (some (5 ∷ 5 ∷ []), mmio_at 0x1000 1 ∷ mmio_at 0x3000 6 ∷ [], 0x70))
    × (Mmio.write debug mmio_counter (mmio_at 0x1000 1 ∷ mmio_at 0x3000 5 ∷ []) 0 0x3070 (1 ∷ [])
        ≡ ok (true, mmio_at 0x1000 1 ∷ mmio_at 0x3000 6 ∷ [], 0x70))
read-write-routes_example =
    read-write-routes debug mmio_counter [] (mmio_at 0x3000 5) 0 0x3070 (mmio_at 0x1000 1 ∷ []) 2
      (1 ∷ []) (inr (omega arith), tt) (omega arith) (omega arith)

-- ===== src/Main/Examples.antt =====
-- The program's machine on a host of tests (src/main.rs).
use ferrum_vm.Prelude.{
  ℕ, ◌≡◌, some, List, [], ◌∷◌, length, take, map, arith, ok, debug, ◌+◌, refl, true, not, ◌&&◌,
  none, if◌then◌else◌,
}
use ferrum_vm.Config.{MemMap}
use ferrum_vm.Config.Map.{Tiles, read_map}
use ferrum_vm.Config.Tables.Chain.{IsChain}
use ferrum_vm.DeviceMap.Io
use ferrum_vm.DeviceMap.Mmio
use ferrum_vm.Main.Windows.{main-answers}
use ferrum_vm.DeviceMap.Io.{IoDevice}
use ferrum_vm.DeviceMap.Mmio.{MmioDevice}
use ferrum_vm.Vm.Memory.{new_mem, range, ioapic, lapic}
use ferrum_vm.Vm.Memory.Slots.{in_range, translate}
use ferrum_vm.Vm.Setup.Built.{attach_io, attach_mmio}
use ferrum_vm.Vm.Load.Placed.{with_cells}
use ferrum_vm.Vm.Setup.{VirtualMachine}
use ferrum_vm.Vm.Sample.{host, mapping, host-IsHost}
use ferrum_vm.Main.{Devices, main, io_devices, mmio_devices}
use ferrum_vm.Main.Boot.{AllLoaded, ram, boot_binaries, main-IsBooted}

-- An access shows which device answers it, and at which offset.
abbrev io : IoDevice ℕ ℕ
io = record {
  input = λ d w port len. ok (d ∷ port ∷ len ∷ [], d, w);
  output = λ d w port bytes. ok (d, port);
  irq_handler = λ d. d;
  tick = λ d w. ok (d, w);
}

abbrev mmio : MmioDevice ℕ ℕ
mmio = record {
  read = λ d w addr len. ok (d ∷ addr ∷ len ∷ [], d, w);
  write = λ d w addr bytes. ok (d, addr);
  tick = λ d w. ok (d, w);
  irq_handler = λ d. d;
  vm_fd = λ d. d;
  pass_guest_memory = λ d. d;
}

abbrev devices : Devices ℕ ℕ
devices = record {
  com1 = 1;
  com2 = 2;
  com3 = 3;
  timer = 4;
  cmos = 5;
  rng = 6;
  cnt = 7;
  blk = 8;
  net = 9;
  fuse = 10;
  gpu = 11;
}

abbrev firmware : List ℕ
firmware = 0xFA ∷ 0xEB ∷ 0xFE ∷ []

abbrev firmware64 : List ℕ
firmware64 = 0xF4 ∷ []

abbrev dsdt : List ℕ
dsdt = 0x44 ∷ 0x53 ∷ 0x44 ∷ 0x54 ∷ []

main-IsBooted_example :
    (vm : VirtualMachine ℕ ℕ ℕ) × (cells : ℕ → ℕ) × (memmap : List ℕ) × (ms : List MemMap)
    × (fadt : List ℕ) × (madt : List ℕ) × (rsdp : List ℕ) × (xsdt : List ℕ) × (main devices io mmio
          debug host
          (record { firmware = some firmware; firmware64 = some firmware64; dsdt = some dsdt })
        ≡ ok vm)
    × (length vm.vcpus ≡ 8)
    × (vm.ram.memory_regions ≡ with_cells ram cells ∷ [])
    × (new_mem debug mapping.address 0x100000000 0 ≡ ok vm.ram.slots)
    × (vm.io_map ≡ map (attach_io io mmio) (io_devices devices))
    × (vm.mmio_map ≡ map (attach_mmio io mmio) (mmio_devices devices))
    × AllLoaded ram cells (boot_binaries firmware firmware64 memmap dsdt fadt madt rsdp xsdt)
    × (read_map memmap ≡ (0xFE02FE02, ms))
    × Tiles 0 (take 10 ms) 0x100000000
    × IsChain 8 fadt madt rsdp xsdt
main-IsBooted_example =
    main-IsBooted devices io mmio debug host mapping firmware firmware64 dsdt host-IsHost
      (omega arith) (omega arith) (omega arith)

-- Accesses to the block device's window and to the first serial port.
main-answers_example :
    (vm : VirtualMachine ℕ ℕ ℕ) × (main devices io mmio debug host
        (record { firmware = some firmware; firmware64 = some firmware64; dsdt = some dsdt })
      ≡ ok vm)
    × ((a : ℕ)
        → translate vm.ram.slots a ≡ (
            if in_range (range 0 0x100000000) a && not (in_range ioapic a) && not (in_range lapic a)
            then some (mapping.address + a)
            else none))
    × (translate vm.ram.slots 0x400002010 ≡ none)
    × (Mmio.read debug mmio vm.mmio_map 0 0x400002010 4
        ≡ ok (some (8 ∷ 0x10 ∷ 4 ∷ []), mmio_devices devices, 0))
    × (Mmio.write debug mmio vm.mmio_map 0 0x400002010 (1 ∷ [])
        ≡ ok (true, mmio_devices devices, 0x10))
    × (Io.input io vm.io_map 0 0x3F9 4 ≡ ok (some (1 ∷ 1 ∷ 4 ∷ []), io_devices devices, 0))
    × (Io.output io vm.io_map 0 0x3F9 (1 ∷ []) ≡ ok (true, io_devices devices, 1))
unfolding io_devices mmio_devices Io.new_region Mmio.new_region
main-answers_example =
    main-answers devices io mmio debug host mapping firmware firmware64 dsdt host-IsHost
      (omega arith) (omega arith) (omega arith)
      (Mmio.new_region 0x400000000 0x400000FFF 6 ∷ Mmio.new_region 0x400001000 0x400001FFF 7 ∷ [])
      (Mmio.new_region 0x400003000 0x400003FFF 9
        ∷ Mmio.new_region 0x400004000 0x400004FFF 10
        ∷ Mmio.new_region 0x400005000 0x400005FFF 11
        ∷ [])
      (Mmio.new_region 0x400002000 0x400002FFF 8) (Io.new_region 0x40 0x43 4 ∷ [])
      (Io.new_region 0x2F8 0x2FF 2 ∷ Io.new_region 0x3E8 0x3EF 3 ∷ Io.new_region 0x70 0x71 5 ∷ [])
      (Io.new_region 0x3F8 0x3FF 1) 0 0x400002010 0x3F9 4 (1 ∷ []) refl (omega arith) (omega arith)
      refl (omega arith) (omega arith)

-- ===== src/Main.antt =====
-- The machine that the program runs: src/main.rs. The devices, the two firmware files and the DSDT
-- are parameters.
use ferrum_vm.Prelude.{ℕ, ◌*◌, Option, List, [], ◌∷◌, Result, ok, ◌>>=◌, unwrap, Build}
use ferrum_vm.Irq.{default_map}
use ferrum_vm.Acpi.{Binary, binary, reset_vector}
use ferrum_vm.Config.{MemoryRegionConfig, inject_memmap}
use ferrum_vm.Config.Tables.{inject_acpi_tables}
use ferrum_vm.DeviceMap.Io
use ferrum_vm.DeviceMap.Io.{IoDevice, IoDeviceRegion}
use ferrum_vm.DeviceMap.Mmio
use ferrum_vm.DeviceMap.Mmio.{MmioDevice, MmioDeviceRegion}
use ferrum_vm.Vm.Setup
use ferrum_vm.Vm.Setup.{Host, MachineConfig, VirtualMachine, set_display}
pub mod Boot
pub mod Windows
mod Examples

-- The files that are read, none where reading one fails.
pub record Files : Type 0 where
  pub firmware : Option (List ℕ)
  pub firmware64 : Option (List ℕ)
  pub dsdt : Option (List ℕ)

pub record Devices (I M : Type 0) : Type 0 where
  pub com1 : I
  pub com2 : I
  pub com3 : I
  pub timer : I
  pub cmos : I
  pub rng : M
  pub cnt : M
  pub blk : M
  pub net : M
  pub fuse : M
  pub gpu : M

module _ {I M : Type 0} (d : Devices I M) where
  unfoldable pub io_devices : List (IoDeviceRegion I)
  io_devices =
      Io.new_region 0x40 0x43 d.timer
      ∷ Io.new_region 0x3F8 0x3FF d.com1
      ∷ Io.new_region 0x2F8 0x2FF d.com2
      ∷ Io.new_region 0x3E8 0x3EF d.com3
      ∷ Io.new_region 0x70 0x71 d.cmos
      ∷ []

  unfoldable pub mmio_devices : List (MmioDeviceRegion M)
  mmio_devices =
      Mmio.new_region 0x400000000 0x400000FFF d.rng
      ∷ Mmio.new_region 0x400001000 0x400001FFF d.cnt
      ∷ Mmio.new_region 0x400002000 0x400002FFF d.blk
      ∷ Mmio.new_region 0x400003000 0x400003FFF d.net
      ∷ Mmio.new_region 0x400004000 0x400004FFF d.fuse
      ∷ Mmio.new_region 0x400005000 0x400005FFF d.gpu
      ∷ []

  unfoldable pub machine_config : List ℕ → List ℕ → MachineConfig I M
  unfolding io_devices mmio_devices
  machine_config firmware firmware64 = record {
    memory_regions = record { mem_size = 4 * 1024 * 1024 * 1024; mem_offset = 0x0000 } ∷ [];
    binaries = binary firmware 0x7E00 ∷ binary firmware64 0x100000 ∷ reset_vector ∷ [];
    io_devices = io_devices;
    mmio_devices = mmio_devices;
    irq_map = default_map;
    code_entry = 0xFFF0;
    total_vcpus = 8;
  }

  -- The configuration with the memory map and the ACPI tables, and the machine that is run.
  unfoldable pub configure : Build → Files → Result (MachineConfig I M)
  unfolding machine_config
  configure b files = do
    firmware ← unwrap files.firmware
    firmware64 ← unwrap files.firmware64
    let config = machine_config firmware firmware64
    mapped ← inject_memmap b config.memory_regions config.binaries
    described ← inject_acpi_tables b files.dsdt config.total_vcpus mapped
    ok (record config { binaries = described })

  unfoldable pub main :
      {R W : Type 0}
      → IoDevice I W
      → MmioDevice M W
      → Build
      → Host R
      → Files
      → Result (VirtualMachine R I M)
  unfolding configure
  main io mmio b host files = do
    config ← configure b files
    vm ← Setup.new io mmio b host config
    ok (set_display vm)

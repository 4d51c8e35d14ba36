-- ===== src/Main/Boot.antt =====
-- What the guest finds in its RAM when it starts (src/main.rs).
use ferrum_vm.Prelude.{
  ℕ, ◌+◌, ◌-◌, ◌≤◌, ◌≡◌, refl, inr, true, some, List, [], ◌∷◌, ◌++◌, length, take, arith, ok, Build,
  map,
}
use ferrum_vm.Memory.{load}
use ferrum_vm.Acpi.{Binary, binary, reset_vector}
use ferrum_vm.Config.{MemoryRegionConfig, MemMap}
use ferrum_vm.Config.Map.{Tiles, read_map, inject_memmap-Tiles}
use ferrum_vm.Config.Tables.Chain.{IsChain, tables, inject_acpi_tables-IsChain}
use ferrum_vm.DeviceMap.Io.{IoDevice}
use ferrum_vm.DeviceMap.Mmio.{MmioDevice}
use ferrum_vm.Irq
use ferrum_vm.Irq.{default_map}
use ferrum_vm.Vm.Memory.{new_mem}
use ferrum_vm.Vm.Load.{Mapping}
use ferrum_vm.Vm.Load.Placed.{Starts, AllFit, AllApart, with_cells, image, image_placed}
use ferrum_vm.Vm.Setup.{Host, VirtualMachine, set_display}
use ferrum_vm.Vm.Setup.Built.{IsHost, new-IsBuilt, route, attach_io, attach_mmio}
use ferrum_vm.Main.{Devices, main, configure, machine_config, io_devices, mmio_devices}

-- Every binary starts in the region, and no later one covers it.
abbrev Spread : MemoryRegionConfig → List Binary → Type 0
Spread mem [] = Unit {0}
Spread mem (bin ∷ bins) =
    Starts mem bin × AllApart bin.offset (length bin.bytes) bins × Spread mem bins

-- Every binary is found at its address.
abbrev pub AllLoaded : MemoryRegionConfig → (ℕ → ℕ) → List Binary → Type 0
AllLoaded mem c [] = Unit {0}
AllLoaded mem c (bin ∷ bins) =
    (load c (bin.offset - mem.mem_offset) (length bin.bytes) ≡ bin.bytes) × AllLoaded mem c bins

image-AllLoaded :
    (mem : MemoryRegionConfig) (bins : List Binary) (c : ℕ → ℕ)
    → Spread mem bins
    → AllLoaded mem (image mem bins c) bins
unfolding image
image-AllLoaded mem [] c h = tt
image-AllLoaded mem (bin ∷ bins) c (starts, apart, rest) =
    (image_placed mem [] bin bins c starts apart, image-AllLoaded mem bins _ rest)

abbrev pub ram : MemoryRegionConfig
ram = record { mem_size = 0x100000000; mem_offset = 0 }

-- What is loaded, in the order in which it is.
abbrev pub boot_binaries :
    (firmware firmware64 memmap dsdt fadt madt rsdp xsdt : List ℕ) → List Binary
boot_binaries firmware firmware64 memmap dsdt fadt madt rsdp xsdt =
    binary firmware 0x7E00
    ∷ binary firmware64 0x100000
    ∷ binary (0xEA ∷ 0x00 ∷ 0x7E ∷ 0x00 ∷ 0x00 ∷ []) 0xFFF0
    ∷ binary memmap 0x7000
    ∷ tables dsdt fadt madt rsdp xsdt

-- Every binary ends in the region.
abbrev AllEnd : MemoryRegionConfig → List Binary → Type 0
AllEnd mem [] = Unit {0}
AllEnd mem (bin ∷ bins) =
    (bin.offset + length bin.bytes ≤ mem.mem_offset + mem.mem_size) × AllEnd mem bins

all_inside :
    (mem : MemoryRegionConfig) (bins : List Binary)
    → Spread mem bins
    → AllEnd mem bins
    → AllFit mem bins
all_inside mem [] h k = tt
all_inside mem (bin ∷ bins) ((low, start), apart, rest) (end, ends) =
    (inr (inr (low, start, end)), all_inside mem bins rest ends)

module _ (firmware firmware64 memmap dsdt fadt madt rsdp xsdt : List ℕ)
    (stage2 : length firmware ≤ 0x81F0) (long_mode : length firmware64 ≤ 0xFFF00000)
    (small : length dsdt ≤ 0x1F800) (mapped : length memmap ≡ 228)
    (chain : IsChain 8 fadt madt rsdp xsdt) where
  boot-Spread : Spread ram (boot_binaries firmware firmware64 memmap dsdt fadt madt rsdp xsdt)
  boot-Spread = let madt_size = chain.madt_table.table.whole in ground arith

  boot-AllEnd : AllEnd ram (boot_binaries firmware firmware64 memmap dsdt fadt madt rsdp xsdt)
  boot-AllEnd = let madt_size = chain.madt_table.table.whole in omega arith

-- In both builds, on a host that does what the start needs, with files that can be read, the program's
-- machine starts with 8 vCPUs, the devices of both maps with their handles attached, and one region of
-- 4 GiB with the slots of `new_mem`, in which the guest finds, each at its address and covered by none
-- of the others: both firmware files, the jump of the reset vector, the memory map,
-- whose first ten entries tile the 4 GiB, and five ACPI tables that form a chain. The firmware has at
-- most 33264 bytes (it ends below the reset vector), the other firmware file ends with the region, and
-- the DSDT has at most 129024 bytes (it ends below that file).
pub main-IsBooted :
    {R I M W : Type 0} (d : Devices I M) (io : IoDevice I W) (mmio : MmioDevice M W) (b : Build)
    (host : Host R) (m : Mapping) (firmware firmware64 dsdt : List ℕ)
    → IsHost host 0x100000000 m
    → length firmware ≤ 0x81F0
    → length firmware64 ≤ 0xFFF00000
    → length dsdt ≤ 0x1F800
    → (vm : VirtualMachine R I M) × (cells : ℕ → ℕ) × (memmap : List ℕ) × (ms : List MemMap)
      × (fadt : List ℕ) × (madt : List ℕ) × (rsdp : List ℕ) × (xsdt : List ℕ) × (main d io mmio b
            host
            (record { firmware = some firmware; firmware64 = some firmware64; dsdt = some dsdt })
          ≡ ok vm)
      × (length vm.vcpus ≡ 8)
      × (vm.ram.memory_regions ≡ with_cells ram cells ∷ [])
      × (new_mem b m.address 0x100000000 0 ≡ ok vm.ram.slots)
      × (vm.io_map ≡ map (attach_io io mmio) (io_devices d))
      × (vm.mmio_map ≡ map (attach_mmio io mmio) (mmio_devices d))
      × AllLoaded ram cells (boot_binaries firmware firmware64 memmap dsdt fadt madt rsdp xsdt)
      × (read_map memmap ≡ (0xFE02FE02, ms))
      × Tiles 0 (take 10 ms) 0x100000000
      × IsChain 8 fadt madt rsdp xsdt
unfolding main configure machine_config reset_vector set_display
main-IsBooted d io mmio b host m firmware firmware64 dsdt h stage2 long_mode small =
    let given = binary firmware 0x7E00 ∷ binary firmware64 0x100000 ∷ reset_vector ∷ [] in
    let (memmap, ms, injected, mapped, tiles, size) =
      inject_memmap-Tiles b ram [] given (omega arith) (omega arith) in
    let (fadt, madt, rsdp, xsdt, described, chain) =
      inject_acpi_tables-IsChain b dsdt 8 (given ++ (binary memmap 0x7000 ∷ [])) (omega arith) in
    let binaries = boot_binaries firmware firmware64 memmap dsdt fadt madt rsdp xsdt in
    let spread =
      boot-Spread firmware firmware64 memmap dsdt fadt madt rsdp xsdt stage2 long_mode small size
        chain in
    let ends =
      boot-AllEnd firmware firmware64 memmap dsdt fadt madt rsdp xsdt stage2 long_mode small size
        chain in
    let (vcpus, slots, built, count, given_slots) =
      new-IsBuilt io mmio b host ram m binaries (io_devices d) (mmio_devices d) default_map 0xFFF0 8
        h (omega arith) (omega arith) (all_inside ram binaries spread ends) in
    (
      record {
        routing = map route default_map;
        vcpus = vcpus;
        ram = record {
          memory_regions = with_cells ram (image ram binaries m.cells) ∷ [];
          slots = slots;
        };
        io_map = map (attach_io io mmio) (io_devices d);
        mmio_map = map (attach_mmio io mmio) (mmio_devices d);
        irq_handler = Irq.new;
        has_display = true;
      },
      image ram binaries m.cells,
      memmap,
      ms,
      fadt,
      madt,
      rsdp,
      xsdt,
      rw (injected, described, built) refl,
      count,
      refl,
      given_slots,
      refl,
      refl,
      image-AllLoaded ram binaries m.cells spread,
      mapped,
      tiles,
      chain,
    )

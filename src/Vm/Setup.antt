-- ===== src/Vm/Setup.antt =====
-- A new virtual machine: `VirtualMachine::new` of src/vm/builder.rs, src/vm/vm.rs, and MachineConfig
-- of src/machine_config/machine_config.rs. What the host answers is the record `Host`; the PCI bus is
-- not looked at. `I` and `M` are the devices of the two maps.
use ferrum_vm.Prelude.{
  ℕ, zero, suc, ◌+◌, Bool, true, false, Option, none, some, List, [], ◌∷◌, ◌++◌, length, set,
  replicate, ltb, if◌then◌else◌, Result, ok, panic, ◌>>=◌, Build,
}
use ferrum_vm.Memory.{GuestMemory}
use ferrum_vm.Irq.{IrqMap, IrqHandler}
use ferrum_vm.Irq
use ferrum_vm.Acpi.{Binary}
use ferrum_vm.Config.{MemoryRegionConfig}
use ferrum_vm.DeviceMap.Io
use ferrum_vm.DeviceMap.Io.{IoDevice, IoDeviceRegion}
use ferrum_vm.DeviceMap.Mmio
use ferrum_vm.DeviceMap.Mmio.{MmioDevice, MmioDeviceRegion}
use ferrum_vm.Vm.Cpu.{Kvm, VcpuCall, new_vcpu}
use ferrum_vm.Vm.Load.{Mapping, Ram, load_regions}
pub mod Built

pub record MachineConfig (I M : Type 0) : Type 0 where
  pub memory_regions : List MemoryRegionConfig
  pub binaries : List Binary
  pub io_devices : List (IoDeviceRegion I)
  pub mmio_devices : List (MmioDeviceRegion M)
  pub irq_map : List IrqMap
  pub code_entry : ℕ
  pub total_vcpus : ℕ

-- `kvm_irq_routing_entry`: a route to a pin of an interrupt controller, and the default entry.
pub data RoutingEntry : Type 0 where
  unset : RoutingEntry
  irqchip : ℕ → ℕ → ℕ → RoutingEntry

-- `opens`: KVM, its machine and its interrupt controllers can be created.
pub record Host (R : Type 0) : Type 0 where
  pub opens : Bool
  pub accepts_routing : List RoutingEntry → Bool
  pub vcpu : ℕ → Kvm R
  pub mmap : GuestMemory → ℕ → Option Mapping

-- `VirtualMachine`, with what KVM was told in place of its handles.
pub record VirtualMachine (R I M : Type 0) : Type 0 where
  pub routing : List RoutingEntry
  pub vcpus : List (List (VcpuCall R))
  pub ram : Ram
  pub io_map : List (IoDeviceRegion I)
  pub mmio_map : List (MmioDeviceRegion M)
  pub irq_handler : IrqHandler
  pub has_display : Bool

-- The loop over the routes: `routing.as_mut_slice()[idx] = ..; idx += 1`.
unfoldable pub fill_routing : List RoutingEntry → ℕ → List IrqMap → Result (List RoutingEntry)
fill_routing routing idx [] = ok routing
fill_routing routing idx (m ∷ ms) =
    let rest = fill_routing (set routing idx (irqchip m.gsi m.irq_chip m.irq_pin)) (suc idx) ms in
    if ltb idx (length routing) then rest else panic

-- `for vcpu_id in 0..total_vcpus`, from `vcpu_id` on with `left` to go.
unfoldable pub new_vcpus :
    {R : Type 0} → (ℕ → Kvm R) → ℕ → ℕ → ℕ → Result (List (List (VcpuCall R)))
new_vcpus vcpu code_entry vcpu_id zero = ok []
new_vcpus vcpu code_entry vcpu_id (suc left) = do
  calls ← new_vcpu (vcpu vcpu_id) code_entry vcpu_id
  others ← new_vcpus vcpu code_entry (suc vcpu_id) left
  ok (calls ∷ others)

module _ {I M W : Type 0} (io : IoDevice I W) (mmio : MmioDevice M W) where
  -- The two loops over the devices: each gets its handles and is registered.
  unfoldable pub register_mmio_devices :
      List (MmioDeviceRegion M) → List (MmioDeviceRegion M) → List (MmioDeviceRegion M)
  register_mmio_devices devices [] = devices
  register_mmio_devices devices (r ∷ rs) =
      let attached =
        Mmio.region_pass_guest_memory mmio
          (Mmio.region_vm_fd mmio (Mmio.region_irq_handler mmio r)) in
      register_mmio_devices (Mmio.register devices attached) rs

  unfoldable pub register_io_devices :
      List (IoDeviceRegion I) → List (IoDeviceRegion I) → List (IoDeviceRegion I)
  register_io_devices devices [] = devices
  register_io_devices devices (r ∷ rs) =
      register_io_devices (Io.register devices (Io.region_irq_handler io r)) rs

  unfoldable pub new :
      {R : Type 0} → Build → Host R → MachineConfig I M → Result (VirtualMachine R I M)
  new b host config =
      if host.opens
      then (do
        routing ← fill_routing (replicate (length config.irq_map) unset) 0 config.irq_map
        routed ← if host.accepts_routing routing then ok routing else panic
        vcpus ← new_vcpus host.vcpu config.code_entry 0 config.total_vcpus
        ram ←
            load_regions b host.mmap config.binaries config.memory_regions
              (record { memory_regions = []; slots = [] })
        ok (record {
          routing = routed;
          vcpus = vcpus;
          ram = ram;
          io_map = register_io_devices [] config.io_devices;
          mmio_map = register_mmio_devices [] config.mmio_devices;
          irq_handler = Irq.new;
          has_display = false;
        }))
      else panic

unfoldable pub set_display : {R I M : Type 0} → VirtualMachine R I M → VirtualMachine R I M
set_display vm = record vm { has_display = true }

-- ===== src/Vm/Setup/Built.antt =====
-- What `VirtualMachine::new` returns (src/vm/builder.rs).
use ferrum_vm.Prelude.{
  ℕ, zero, suc, ◌+◌, ◌≤◌, ◌<◌, ◌≡◌, refl, ap, sym, ◌∙◌, true, false, some, List, [], ◌∷◌, ◌++◌, map,
  append-nil, append_assoc, length, set, replicate, ltb, lt→ltb, arith, ok, Build, u64_mod,
  ==_of_ne, ◌==◌, Option, length-append,
}
use ferrum_vm.Prelude.Bytes.{AreBytes}
use ferrum_vm.Memory.{MemoryRegion}
use ferrum_vm.Irq.{IrqMap}
use ferrum_vm.Irq
use ferrum_vm.Acpi.{Binary}
use ferrum_vm.Config.{MemoryRegionConfig}
use ferrum_vm.DeviceMap.Io
use ferrum_vm.DeviceMap.Io.{IoDevice, IoDeviceRegion}
use ferrum_vm.DeviceMap.Mmio
use ferrum_vm.DeviceMap.Mmio.{MmioDevice, MmioDeviceRegion}
use ferrum_vm.Vm.Cpu.{Kvm, VcpuCall, CpuidEntry, Sregs, new_vcpu}
use ferrum_vm.Vm.Cpu.Started.{new_vcpu-IsStarted}
use ferrum_vm.Vm.Memory.{Slot, new_mem}
use ferrum_vm.Vm.Memory.Slots.{new_mem-translate}
use ferrum_vm.Vm.Load.{Mapping, load_regions, map_region, new_region}
use ferrum_vm.Vm.Load.Placed.{AllFit, with_cells, image, load_binaries-image}
use ferrum_vm.Vm.Setup.{
  RoutingEntry, unset, irqchip, Host, fill_routing, new_vcpus, new, register_mmio_devices,
  register_io_devices,
}

-- The entry of a route.
abbrev pub route : IrqMap → RoutingEntry
route m = irqchip m.gsi m.irq_chip m.irq_pin

set-append :
    {A : Type 0} (xs ys : List A) (y v : A) → set (xs ++ (y ∷ ys)) (length xs) v ≡ xs ++ (v ∷ ys)
set-append [] ys y v = refl
set-append (x ∷ xs) ys y v = ap (λ zs. x ∷ zs) (set-append xs ys y v)

fill_routing-append :
    (done : List RoutingEntry) (ms : List IrqMap)
    → fill_routing (done ++ replicate (length ms) unset) (length done) ms
      ≡ ok (done ++ map route ms)
unfolding fill_routing
fill_routing-append done [] = refl
fill_routing-append done (m ∷ ms) =
    let left = replicate (length ms) unset in
    let room : ltb (length done) (length (done ++ (unset ∷ left))) ≡ true =
      lt→ltb _ _ (omega (arith, length-append done (unset ∷ left))) in
    let longer : length (done ++ (route m ∷ [])) ≡ suc (length done) =
      omega (arith, length-append done (route m ∷ [])) in
    let ih = fill_routing-append (done ++ (route m ∷ [])) ms in
    rw (room, set-append done left unset (route m))
      (rw
        (
          longer,
          append_assoc done (route m ∷ []) left,
          append_assoc done (route m ∷ []) (map route ms),
        )
        at ih)

-- KVM accepts every call for the vCPU and gives the answers that its interface documents.
pub record IsAccepting {R : Type 0} (kvm : Kvm R) : Type 0 where
  pub cpuid : List CpuidEntry
  pub sregs : Sregs R
  pub lapic : List ℕ
  pub listed : kvm.supported_cpuid ≡ some cpuid
  pub held : (calls : List (VcpuCall R)) → kvm.get_sregs calls ≡ some sregs
  pub apic : (calls : List (VcpuCall R)) → kvm.get_lapic calls ≡ some lapic
  pub accepted : (calls : List (VcpuCall R)) (call : VcpuCall R) → kvm.accepts calls call ≡ true
  pub size : length lapic ≡ 1024
  pub bytes : AreBytes lapic

new_vcpus-length :
    {R : Type 0} (vcpu : ℕ → Kvm R) (code_entry vcpu_id left : ℕ)
    → vcpu_id + left ≤ 256
    → ((i : ℕ) → IsAccepting (vcpu i))
    → (calls : List (List (VcpuCall R))) × (new_vcpus vcpu code_entry vcpu_id left ≡ ok calls)
      × (length calls ≡ left)
unfolding new_vcpus
new_vcpus-length vcpu code_entry vcpu_id zero h k = ([], refl, refl)
new_vcpus-length vcpu code_entry vcpu_id (suc left) h k =
    let a = k vcpu_id in
    let (cpuid, sregs, started, offered, reset) =
      new_vcpu-IsStarted (vcpu vcpu_id) code_entry vcpu_id a.cpuid a.sregs a.lapic (omega arith)
        a.listed a.held a.apic a.accepted a.size a.bytes in
    let (others, returned, size) =
      new_vcpus-length vcpu code_entry (suc vcpu_id) left (omega arith) k in
    let (calls, one) : (calls : List (VcpuCall _)) × (new_vcpu (vcpu vcpu_id) code_entry vcpu_id
          ≡ ok calls) =
      (_, started) in
    (calls ∷ others, rw (one, returned) refl, ap suc size)

module _ {I M W : Type 0} (io : IoDevice I W) (mmio : MmioDevice M W) where
  abbrev pub attach_mmio : MmioDeviceRegion M → MmioDeviceRegion M
  attach_mmio r = record r {
    mmio_device = mmio.pass_guest_memory (mmio.vm_fd (mmio.irq_handler r.mmio_device));
  }

  abbrev pub attach_io : IoDeviceRegion I → IoDeviceRegion I
  attach_io r = record r { io_device = io.irq_handler r.io_device }

  register_mmio_devices-map :
      (devices rs : List (MmioDeviceRegion M))
      → register_mmio_devices io mmio devices rs ≡ devices ++ map attach_mmio rs
  unfolding register_mmio_devices Mmio.register Mmio.region_irq_handler Mmio.region_vm_fd
      Mmio.region_pass_guest_memory
  register_mmio_devices-map devices [] = sym (append-nil devices)
  register_mmio_devices-map devices (r ∷ rs) =
      register_mmio_devices-map (devices ++ (attach_mmio r ∷ [])) rs
      ∙ append_assoc devices (attach_mmio r ∷ []) (map attach_mmio rs)

  register_io_devices-map :
      (devices rs : List (IoDeviceRegion I))
      → register_io_devices io mmio devices rs ≡ devices ++ map attach_io rs
  unfolding register_io_devices Io.register Io.region_irq_handler
  register_io_devices-map devices [] = sym (append-nil devices)
  register_io_devices-map devices (r ∷ rs) =
      register_io_devices-map (devices ++ (attach_io r ∷ [])) rs
      ∙ append_assoc devices (attach_io r ∷ []) (map attach_io rs)

-- The one region of a configuration that has one: it is mapped, and the binaries are in it.
load_regions-image :
    (b : Build) (mmap : List MemoryRegion → ℕ → Option Mapping) (binaries : List Binary)
    (mem : MemoryRegionConfig) (m : Mapping)
    → mem.mem_offset + mem.mem_size < u64_mod
    → m.address + mem.mem_size < u64_mod
    → 0 < m.address
    → mmap [] mem.mem_size ≡ some m
    → AllFit mem binaries
    → (slots : List Slot) × (load_regions b mmap binaries
          (mem ∷ [])
          (record { memory_regions = []; slots = [] })
        ≡ ok (record {
          memory_regions = with_cells mem (image mem binaries m.cells) ∷ [];
          slots = slots;
        }))
      × (new_mem b m.address mem.mem_size mem.mem_offset ≡ ok slots)
unfolding load_regions map_region new_region
load_regions-image b mmap binaries mem m guest host mapped answered fit =
    let (slots, given, same) =
      new_mem-translate b m.address mem.mem_size mem.mem_offset guest host in
    let real : (m.address == 0) ≡ false = ==_of_ne m.address 0 (ground arith) in
    (
      slots,
      rw (answered, given, real)
          (rw (load_binaries-image b mem [] guest binaries m.cells fit) refl),
      given,
    )

-- The host does what the start needs: KVM opens, takes routes and accepts the calls for every vCPU, and
-- mmap returns the mapping `m` for the first region, which ends below 2 ^ 64.
pub record IsHost {R : Type 0} (host : Host R) (mem_size : ℕ) (m : Mapping) : Type 0 where
  pub opened : host.opens ≡ true
  pub routed : (entries : List RoutingEntry) → host.accepts_routing entries ≡ true
  pub accepting : (i : ℕ) → IsAccepting (host.vcpu i)
  pub mapped : host.mmap [] mem_size ≡ some m
  pub below : m.address + mem_size < u64_mod
  pub above : 0 < m.address

-- In both builds, on such a host, a configuration of one region whose binaries fit becomes a machine:
-- a routing entry for every route in their order, the calls of each of the vCPUs, one region with the
-- image of the binaries and the slots of `new_mem`, and the devices of both maps in their order, each
-- with its handles attached.
pub new-IsBuilt :
    {R I M W : Type 0} (io : IoDevice I W) (mmio : MmioDevice M W) (b : Build) (host : Host R)
    (mem : MemoryRegionConfig) (m : Mapping) (binaries : List Binary)
    (ios : List (IoDeviceRegion I)) (mmios : List (MmioDeviceRegion M)) (routes : List IrqMap)
    (code_entry total_vcpus : ℕ)
    → IsHost host mem.mem_size m
    → total_vcpus < 256
    → mem.mem_offset + mem.mem_size < u64_mod
    → AllFit mem binaries
    → (vcpus : List (List (VcpuCall R))) × (slots : List Slot) × (new io mmio b host (record {
      memory_regions = mem ∷ [];
      binaries = binaries;
      io_devices = ios;
      mmio_devices = mmios;
      irq_map = routes;
      code_entry = code_entry;
      total_vcpus = total_vcpus;
    })
        ≡ ok (record {
          routing = map route routes;
          vcpus = vcpus;
          ram = record {
            memory_regions = with_cells mem (image mem binaries m.cells) ∷ [];
            slots = slots;
          };
          io_map = map (attach_io io mmio) ios;
          mmio_map = map (attach_mmio io mmio) mmios;
          irq_handler = Irq.new;
          has_display = false;
        }))
      × (length vcpus ≡ total_vcpus)
      × (new_mem b m.address mem.mem_size mem.mem_offset ≡ ok slots)
unfolding new
new-IsBuilt io mmio b host mem m binaries ios mmios routes code_entry total h few guest fit =
    let (vcpus, returned, size) =
      new_vcpus-length host.vcpu code_entry 0 total (omega arith) h.accepting in
    let (slots, loaded, given) =
      load_regions-image b host.mmap binaries mem m guest h.below h.above h.mapped fit in
    (
      vcpus,
      slots,
      rw
          (
            h.opened,
            fill_routing-append [] routes,
            h.routed (map route routes),
            returned,
            loaded,
            register_io_devices-map io mmio [] ios,
            register_mmio_devices-map io mmio [] mmios,
          )
          refl,
      size,
      given,
    )

-- ===== src/Main/Windows.antt =====
-- Which part of the program's machine answers an access of the guest (src/main.rs).
use mathlib.Core.List.{map-append}
use ferrum_vm.Prelude.{
  ℕ, ◌+◌, ◌-◌, ◌≤◌, ◌<◌, ◌≡◌, sym, ◌∙◌, ap, ◌⊎◌, not, ◌&&◌, true, none, some, List, [], ◌∷◌, ◌++◌,
  length, if◌then◌else◌, arith, ok, ◌>>=◌, Build, map, u64_mod,
}
use ferrum_vm.DeviceMap.Io
use ferrum_vm.DeviceMap.Io.{IoDevice, IoDeviceRegion}
use ferrum_vm.DeviceMap.Mmio
use ferrum_vm.DeviceMap.Mmio.{MmioDevice, MmioDeviceRegion}
use ferrum_vm.DeviceMap.Routing.{NoneHas, NoneMaps, input-output-routes, read-write-routes}
use ferrum_vm.Vm.Memory.{range, ioapic, lapic, Slot, new_mem}
use ferrum_vm.Vm.Memory.Slots.{in_range, translate, new_mem-translate}
use ferrum_vm.Vm.Load.{Mapping}
use ferrum_vm.Vm.Setup.{Host, VirtualMachine}
use ferrum_vm.Vm.Setup.Built.{IsHost, attach_io, attach_mmio}
use ferrum_vm.Main.{Devices, main, io_devices, mmio_devices}
use ferrum_vm.Main.Boot.{main-IsBooted}

-- Ranges of ports or addresses, both ends included, that share none.
abbrev Disjoint : (start end start' end' : ℕ) → Type 0
Disjoint start end start' end' = (end < start') ⊎ (end' < start)

module _ {D : Type 0} where
  abbrev IoApart : IoDeviceRegion D → List (IoDeviceRegion D) → Type 0
  IoApart r [] = Unit {0}
  IoApart r (s ∷ rs) = Disjoint r.start r.end s.start s.end × IoApart r rs

  abbrev IoDisjoint : List (IoDeviceRegion D) → Type 0
  IoDisjoint [] = Unit {0}
  IoDisjoint (r ∷ rs) = IoApart r rs × IoDisjoint rs

  abbrev MmioApart : MmioDeviceRegion D → List (MmioDeviceRegion D) → Type 0
  MmioApart r [] = Unit {0}
  MmioApart r (s ∷ rs) = Disjoint r.start r.end s.start s.end × MmioApart r rs

  abbrev MmioDisjoint : List (MmioDeviceRegion D) → Type 0
  MmioDisjoint [] = Unit {0}
  MmioDisjoint (r ∷ rs) = MmioApart r rs × MmioDisjoint rs

  abbrev AllAbove : ℕ → List (MmioDeviceRegion D) → Type 0
  AllAbove low [] = Unit {0}
  AllAbove low (r ∷ rs) = (low ≤ r.start) × AllAbove low rs

  module _ (r : IoDeviceRegion D) (after : List (IoDeviceRegion D)) where
    IoApart-one :
        (x : IoDeviceRegion D) (before : List (IoDeviceRegion D))
        → IoApart x (before ++ (r ∷ after))
        → Disjoint x.start x.end r.start r.end
    IoApart-one x [] h = h.0
    IoApart-one x (y ∷ before) h = IoApart-one x before h.1

    IoDisjoint-NoneHas :
        (before : List (IoDeviceRegion D)) (port : ℕ)
        → IoDisjoint (before ++ (r ∷ after))
        → r.start ≤ port
        → port ≤ r.end
        → NoneHas before port
    IoDisjoint-NoneHas [] port h lo hi = tt
    IoDisjoint-NoneHas (x ∷ before) port (apart, h) lo hi =
        let one = IoApart-one x before apart in
        (ground arith, IoDisjoint-NoneHas before port h lo hi)

  module _ (r : MmioDeviceRegion D) (after : List (MmioDeviceRegion D)) where
    MmioApart-one :
        (x : MmioDeviceRegion D) (before : List (MmioDeviceRegion D))
        → MmioApart x (before ++ (r ∷ after))
        → Disjoint x.start x.end r.start r.end
    MmioApart-one x [] h = h.0
    MmioApart-one x (y ∷ before) h = MmioApart-one x before h.1

    MmioDisjoint-NoneMaps :
        (before : List (MmioDeviceRegion D)) (addr : ℕ)
        → MmioDisjoint (before ++ (r ∷ after))
        → r.start ≤ addr
        → addr ≤ r.end
        → NoneMaps before addr
    MmioDisjoint-NoneMaps [] addr h lo hi = tt
    MmioDisjoint-NoneMaps (x ∷ before) addr (apart, h) lo hi =
        let one = MmioApart-one x before apart in
        (ground arith, MmioDisjoint-NoneMaps before addr h lo hi)

    AllAbove-one :
        (low : ℕ) (before : List (MmioDeviceRegion D))
        → AllAbove low (before ++ (r ∷ after))
        → low ≤ r.start
    AllAbove-one low [] h = h.0
    AllAbove-one low (x ∷ before) h = AllAbove-one low before h.1

module _ {I M W : Type 0} (d : Devices I M) (io : IoDevice I W) (mmio : MmioDevice M W) where
  io_devices-IoDisjoint : IoDisjoint (map (attach_io io mmio) (io_devices d))
  unfolding io_devices Io.new_region
  io_devices-IoDisjoint = ground arith

  mmio_devices-MmioDisjoint : MmioDisjoint (map (attach_mmio io mmio) (mmio_devices d))
  unfolding mmio_devices Mmio.new_region
  mmio_devices-MmioDisjoint = ground arith

  mmio_devices-AllAbove : AllAbove 0x400000000 (map (attach_mmio io mmio) (mmio_devices d))
  unfolding mmio_devices Mmio.new_region
  mmio_devices-AllAbove = omega arith

slots_backed :
    (b : Build) (m : Mapping) (slots : List Slot)
    → m.address + 0x100000000 < u64_mod
    → new_mem b m.address 0x100000000 0 ≡ ok slots
    → (a : ℕ)
    → translate slots a ≡ (
        if in_range (range 0 0x100000000) a && not (in_range ioapic a) && not (in_range lapic a)
        then some (m.address + a)
        else none)
slots_backed b m slots below e a =
    let (slots', given, backed) = new_mem-translate b m.address 0x100000000 0 (omega arith) below in
    let same : slots' ≡ slots = ground (arith, sym given ∙ e) in
    let zero_offset : a - 0 ≡ a = omega arith in rw (same, zero_offset) at (backed a)

module _ {R I M W : Type 0} (d : Devices I M) (io : IoDevice I W) (mmio : MmioDevice M W)
    (b : Build) (host : Host R) (m : Mapping) (firmware firmware64 dsdt : List ℕ)
    (accepts : IsHost host 0x100000000 m) (stage2 : length firmware ≤ 0x81F0)
    (long_mode : length firmware64 ≤ 0xFFF00000) (small : length dsdt ≤ 0x1F800)
    (before after : List (MmioDeviceRegion M)) (r : MmioDeviceRegion M)
    (io_before io_after : List (IoDeviceRegion I)) (s : IoDeviceRegion I) where
  -- On a host and with files as the start needs them, the machine that the program starts has guest RAM
  -- at exactly the addresses below 4 GiB but those of the two interrupt controllers' pages, each backed
  -- by the byte of the mapping at its address. In both builds an address in the range of any of its
  -- MMIO devices is not RAM, and is read from and written to that device alone, at its offset in the
  -- range; a port in the range of any of its IO devices reaches that device alone, likewise.
  pub main-answers :
      (w : W) (addr port len : ℕ) (bytes : List ℕ)
      → mmio_devices d ≡ before ++ (r ∷ after)
      → r.start ≤ addr
      → addr ≤ r.end
      → io_devices d ≡ io_before ++ (s ∷ io_after)
      → s.start ≤ port
      → port ≤ s.end
      → (vm : VirtualMachine R I M) × (main d io mmio b host
            (record { firmware = some firmware; firmware64 = some firmware64; dsdt = some dsdt })
          ≡ ok vm)
        × ((a : ℕ)
            → translate vm.ram.slots a ≡ (
                if in_range (range 0 0x100000000) a
                  && not (in_range ioapic a)
                  && not (in_range lapic a)
                then some (m.address + a)
                else none))
        × (translate vm.ram.slots addr ≡ none)
        × (Mmio.read b mmio vm.mmio_map w addr len ≡ (do
          p ← mmio.read (attach_mmio io mmio r).mmio_device w (addr - r.start) len
          ok (
            some p.0,
            map (attach_mmio io mmio) before
                ++ (record r { mmio_device = p.1 } ∷ map (attach_mmio io mmio) after),
            p.2,
          )))
        × (Mmio.write b mmio vm.mmio_map w addr bytes ≡ (do
          p ← mmio.write (attach_mmio io mmio r).mmio_device w (addr - r.start) bytes
          ok (
            true,
            map (attach_mmio io mmio) before
                ++ (record r { mmio_device = p.0 } ∷ map (attach_mmio io mmio) after),
            p.1,
          )))
        × (Io.input io vm.io_map w port len ≡ (do
          p ← io.input (attach_io io mmio s).io_device w (port - s.start) len
          ok (
            some p.0,
            map (attach_io io mmio) io_before
                ++ (record s { io_device = p.1 } ∷ map (attach_io io mmio) io_after),
            p.2,
          )))
        × (Io.output io vm.io_map w port bytes ≡ (do
          p ← io.output (attach_io io mmio s).io_device w (port - s.start) bytes
          ok (
            true,
            map (attach_io io mmio) io_before
                ++ (record s { io_device = p.0 } ∷ map (attach_io io mmio) io_after),
            p.1,
          )))
  main-answers w addr port len bytes e lo hi f low high =
      let (vm, _, _, _, _, _, _, _, started, _, _, slots, ios, mmios, _, _, _, _) =
        main-IsBooted d io mmio b host m firmware firmware64 dsdt accepts stage2 long_mode small in
      let backed = slots_backed b m vm.ram.slots accepts.below slots in
      let placed : map (attach_mmio io mmio) (mmio_devices d)
          ≡ map (attach_mmio io mmio) before
            ++ ((attach_mmio io mmio) r ∷ map (attach_mmio io mmio) after) =
        ap (map (attach_mmio io mmio)) e ∙ map-append (attach_mmio io mmio) before (r ∷ after) in
      let io_placed : map (attach_io io mmio) (io_devices d)
          ≡ map (attach_io io mmio) io_before
            ++ ((attach_io io mmio) s ∷ map (attach_io io mmio) io_after) =
        ap (map (attach_io io mmio)) f ∙ map-append (attach_io io mmio) io_before (s ∷ io_after) in
      let apart : MmioDisjoint (
          map (attach_mmio io mmio) before
          ++ (attach_mmio io mmio r ∷ map (attach_mmio io mmio) after)) =
        rw placed at (mmio_devices-MmioDisjoint d io mmio) in
      let io_apart : IoDisjoint (
          map (attach_io io mmio) io_before
          ++ (attach_io io mmio s ∷ map (attach_io io mmio) io_after)) =
        rw io_placed at (io_devices-IoDisjoint d io mmio) in
      let above =
        AllAbove-one (attach_mmio io mmio r) _ 0x400000000 (map (attach_mmio io mmio) before)
          (rw placed at (mmio_devices-AllAbove d io mmio)) in
      let window =
        read-write-routes b mmio (map (attach_mmio io mmio) after) (attach_mmio io mmio r) w addr
          (map (attach_mmio io mmio) before) len bytes
          (MmioDisjoint-NoneMaps _ _ _ addr apart lo hi) lo hi in
      let ports =
        input-output-routes io (map (attach_io io mmio) io_after) (attach_io io mmio s) w port
          (map (attach_io io mmio) io_before) len bytes
          (IoDisjoint-NoneHas _ _ _ port io_apart low high) low high in
      (
        vm,
        started,
        backed,
        ground (arith, backed addr, above, lo),
        rw (mmios, placed) window.0,
        rw (mmios, placed) window.1,
        rw (ios, io_placed) ports.0,
        rw (ios, io_placed) ports.1,
      )

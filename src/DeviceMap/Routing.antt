-- ===== src/DeviceMap/Routing.antt =====
-- Which device answers an access, in src/device_maps/io.rs and src/device_maps/mmio.rs.
use ferrum_vm.Prelude.{
  ℕ, ◌-◌, ◌≤◌, ◌<◌, ◌≡◌, refl, ◌⊎◌, true, false, none, some, List, [], ◌∷◌, ◌++◌, ok, ◌>>=◌,
  >>=-assoc, Build, sub_word_exact, u64_mod, arith,
}
use ferrum_vm.DeviceMap.Io
use ferrum_vm.DeviceMap.Io.{IoDevice, IoDeviceRegion}
use ferrum_vm.DeviceMap.Mmio
use ferrum_vm.DeviceMap.Mmio.{MmioDevice, MmioDeviceRegion}

-- No region of the list contains the port, or the address.
abbrev pub NoneHas : {D : Type 0} → List (IoDeviceRegion D) → ℕ → Type 0
NoneHas [] port = Unit {0}
NoneHas (r ∷ rs) port = ((port < r.start) ⊎ (r.end < port)) × NoneHas rs port

abbrev pub NoneMaps : {D : Type 0} → List (MmioDeviceRegion D) → ℕ → Type 0
NoneMaps [] addr = Unit {0}
NoneMaps (r ∷ rs) addr = ((addr < r.start) ⊎ (r.end < addr)) × NoneMaps rs addr

module _ {D : Type 0} where
  io_outside :
      (r : IoDeviceRegion D) (port : ℕ)
      → (port < r.start) ⊎ (r.end < port)
      → Io.contains r port ≡ false
  unfolding Io.contains
  io_outside r port h = ground arith

  io_inside :
      (r : IoDeviceRegion D) (port : ℕ) → r.start ≤ port → port ≤ r.end → Io.contains r port ≡ true
  unfolding Io.contains
  io_inside r port lo hi = ground arith

  mmio_outside :
      (r : MmioDeviceRegion D) (addr : ℕ)
      → (addr < r.start) ⊎ (r.end < addr)
      → Mmio.contains r addr ≡ false
  unfolding Mmio.contains
  mmio_outside r addr h = ground arith

  mmio_inside :
      (r : MmioDeviceRegion D) (addr : ℕ)
      → r.start ≤ addr
      → addr ≤ r.end
      → Mmio.contains r addr ≡ true
  unfolding Mmio.contains
  mmio_inside r addr lo hi = ground arith

module _ {D W : Type 0} (dev : IoDevice D W) (after : List (IoDeviceRegion D))
    (r : IoDeviceRegion D) (w : W) (port : ℕ) where
  input-routes :
      (before : List (IoDeviceRegion D)) (len : ℕ)
      → NoneHas before port
      → r.start ≤ port
      → port ≤ r.end
      → Io.input dev (before ++ (r ∷ after)) w port len ≡ (do
        p ← dev.input r.io_device w (port - r.start) len
        ok (some p.0, before ++ (record r { io_device = p.1 } ∷ after), p.2))
  unfolding Io.input Io.region_input
  input-routes [] len none_before lo hi =
      rw (io_inside r port lo hi) (>>=-assoc (dev.input r.io_device w (port - r.start) len) _ _)
  input-routes (x ∷ xs) len none_before lo hi = rw (io_outside x port none_before.0) (
      rw (input-routes xs len none_before.1 lo hi)
        (>>=-assoc (dev.input r.io_device w (port - r.start) len) _ _))

  output-routes :
      (before : List (IoDeviceRegion D)) (bytes : List ℕ)
      → NoneHas before port
      → r.start ≤ port
      → port ≤ r.end
      → Io.output dev (before ++ (r ∷ after)) w port bytes ≡ (do
        p ← dev.output r.io_device w (port - r.start) bytes
        ok (true, before ++ (record r { io_device = p.0 } ∷ after), p.1))
  unfolding Io.output Io.region_output
  output-routes [] bytes none_before lo hi =
      rw (io_inside r port lo hi) (>>=-assoc (dev.output r.io_device w (port - r.start) bytes) _ _)
  output-routes (x ∷ xs) bytes none_before lo hi = rw (io_outside x port none_before.0) (
      rw (output-routes xs bytes none_before.1 lo hi)
        (>>=-assoc (dev.output r.io_device w (port - r.start) bytes) _ _))

  -- A port in the range of a region, and of none before it, is read from and written to that region's
  -- device alone, at its offset in the range; every other region is left as it was.
  pub input-output-routes :
      (before : List (IoDeviceRegion D)) (len : ℕ) (bytes : List ℕ)
      → NoneHas before port
      → r.start ≤ port
      → port ≤ r.end
      → (Io.input dev (before ++ (r ∷ after)) w port len ≡ (do
        p ← dev.input r.io_device w (port - r.start) len
        ok (some p.0, before ++ (record r { io_device = p.1 } ∷ after), p.2)))
        × (Io.output dev (before ++ (r ∷ after)) w port bytes ≡ (do
          p ← dev.output r.io_device w (port - r.start) bytes
          ok (true, before ++ (record r { io_device = p.0 } ∷ after), p.1)))
  input-output-routes before len bytes none_before lo hi =
      (input-routes before len none_before lo hi, output-routes before bytes none_before lo hi)

module _ {D W : Type 0} (b : Build) (dev : MmioDevice D W) (after : List (MmioDeviceRegion D))
    (r : MmioDeviceRegion D) (w : W) (addr : ℕ) where
  read-routes :
      (before : List (MmioDeviceRegion D)) (len : ℕ)
      → NoneMaps before addr
      → r.start ≤ addr
      → addr ≤ r.end
      → Mmio.read b dev (before ++ (r ∷ after)) w addr len ≡ (do
        p ← dev.read r.mmio_device w (addr - r.start) len
        ok (some p.0, before ++ (record r { mmio_device = p.1 } ∷ after), p.2))
  unfolding Mmio.read Mmio.region_read
  read-routes [] len none_before lo hi =
      rw (mmio_inside r addr lo hi, sub_word_exact b u64_mod addr r.start lo)
        (>>=-assoc (dev.read r.mmio_device w (addr - r.start) len) _ _)
  read-routes (x ∷ xs) len none_before lo hi = rw (mmio_outside x addr none_before.0) (
      rw (read-routes xs len none_before.1 lo hi)
        (>>=-assoc (dev.read r.mmio_device w (addr - r.start) len) _ _))

  write-routes :
      (before : List (MmioDeviceRegion D)) (bytes : List ℕ)
      → NoneMaps before addr
      → r.start ≤ addr
      → addr ≤ r.end
      → Mmio.write b dev (before ++ (r ∷ after)) w addr bytes ≡ (do
        p ← dev.write r.mmio_device w (addr - r.start) bytes
        ok (true, before ++ (record r { mmio_device = p.0 } ∷ after), p.1))
  unfolding Mmio.write Mmio.region_write
  write-routes [] bytes none_before lo hi =
      rw (mmio_inside r addr lo hi, sub_word_exact b u64_mod addr r.start lo)
        (>>=-assoc (dev.write r.mmio_device w (addr - r.start) bytes) _ _)
  write-routes (x ∷ xs) bytes none_before lo hi = rw (mmio_outside x addr none_before.0) (
      rw (write-routes xs bytes none_before.1 lo hi)
        (>>=-assoc (dev.write r.mmio_device w (addr - r.start) bytes) _ _))

  -- An address in the range of a region, and of none before it, is read from and written to that
  -- region's device alone, at its offset in the range, in both builds; every other region is left as
  -- it was.
  pub read-write-routes :
      (before : List (MmioDeviceRegion D)) (len : ℕ) (bytes : List ℕ)
      → NoneMaps before addr
      → r.start ≤ addr
      → addr ≤ r.end
      → (Mmio.read b dev (before ++ (r ∷ after)) w addr len ≡ (do
        p ← dev.read r.mmio_device w (addr - r.start) len
        ok (some p.0, before ++ (record r { mmio_device = p.1 } ∷ after), p.2)))
        × (Mmio.write b dev (before ++ (r ∷ after)) w addr bytes ≡ (do
          p ← dev.write r.mmio_device w (addr - r.start) bytes
          ok (true, before ++ (record r { mmio_device = p.0 } ∷ after), p.1)))
  read-write-routes before len bytes none_before lo hi =
      (read-routes before len none_before lo hi, write-routes before bytes none_before lo hi)

-- An access that no region contains reaches no device: nothing is read, and nothing changes.
pub input_none :
    {D W : Type 0} (dev : IoDevice D W) (rs : List (IoDeviceRegion D)) (w : W) (port len : ℕ)
    → NoneHas rs port
    → Io.input dev rs w port len ≡ ok (none, rs, w)
unfolding Io.input
input_none dev [] w port len h = refl
input_none dev (r ∷ rs) w port len h =
    rw (io_outside r port h.0) (rw (input_none dev rs w port len h.1))

pub read_none :
    {D W : Type 0} (b : Build) (dev : MmioDevice D W) (rs : List (MmioDeviceRegion D)) (w : W)
    (addr len : ℕ)
    → NoneMaps rs addr
    → Mmio.read b dev rs w addr len ≡ ok (none, rs, w)
unfolding Mmio.read
read_none b dev [] w addr len h = refl
read_none b dev (r ∷ rs) w addr len h =
    rw (mmio_outside r addr h.0) (rw (read_none b dev rs w addr len h.1))

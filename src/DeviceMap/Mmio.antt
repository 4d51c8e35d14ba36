-- ===== src/DeviceMap/Mmio.antt =====
-- The MMIO space: src/device_maps/mmio.rs.
use ferrum_vm.Prelude.{
  ℕ, Bool, true, false, ◌&&◌, Option, none, some, List, [], ◌∷◌, ◌++◌, leb, if◌then◌else◌, Result,
  ok, ◌>>=◌, Build, sub_word, u64_mod,
}

-- The trait `MMIODevice`. The handles that the last three attach are shared: the device keeps only that
-- it has them.
pub record MmioDevice (D W : Type 0) : Type 0 where
  pub read : D → W → ℕ → ℕ → Result (List ℕ × D × W)
  pub write : D → W → ℕ → List ℕ → Result (D × W)
  pub tick : D → W → Result (D × W)
  pub irq_handler : D → D
  pub vm_fd : D → D
  pub pass_guest_memory : D → D

pub record MmioDeviceRegion (D : Type 0) : Type 0 where
  pub mmio_device : D
  pub start : ℕ
  pub end : ℕ

module _ {D : Type 0} where
  unfoldable pub new_region : ℕ → ℕ → D → MmioDeviceRegion D
  new_region start end device = record { mmio_device = device; start = start; end = end }

  unfoldable pub contains : MmioDeviceRegion D → ℕ → Bool
  contains r addr = leb r.start addr && leb addr r.end

  -- `MMIODeviceMap::register`.
  unfoldable pub register :
      List (MmioDeviceRegion D) → MmioDeviceRegion D → List (MmioDeviceRegion D)
  register devices region = devices ++ (region ∷ [])

module _ {D W : Type 0} (b : Build) (dev : MmioDevice D W) where
  unfoldable pub region_read :
      MmioDeviceRegion D → W → ℕ → ℕ → Result (List ℕ × MmioDeviceRegion D × W)
  region_read r w addr len = do
    dev_off ← sub_word b u64_mod addr r.start
    (bytes, d, w') ← dev.read r.mmio_device w dev_off len
    ok (bytes, record r { mmio_device = d }, w')

  unfoldable pub region_write :
      MmioDeviceRegion D → W → ℕ → List ℕ → Result (MmioDeviceRegion D × W)
  region_write r w addr bytes = do
    dev_off ← sub_word b u64_mod addr r.start
    (d, w') ← dev.write r.mmio_device w dev_off bytes
    ok (record r { mmio_device = d }, w')

  -- `MMIODeviceMap`: the first region that contains the address answers.
  unfoldable pub read :
      List (MmioDeviceRegion D)
      → W
      → ℕ
      → ℕ
      → Result (Option (List ℕ) × List (MmioDeviceRegion D) × W)
  read [] w addr len = ok (none, [], w)
  read (r ∷ rs) w addr len =
      let rest = read rs w addr len in
      if contains r addr
      then (do (bytes, r', w') ← region_read r w addr len; ok (some bytes, r' ∷ rs, w'))
      else (do (bytes, rs', w') ← rest; ok (bytes, r ∷ rs', w'))

  unfoldable pub write :
      List (MmioDeviceRegion D) → W → ℕ → List ℕ → Result (Bool × List (MmioDeviceRegion D) × W)
  write [] w addr bytes = ok (false, [], w)
  write (r ∷ rs) w addr bytes =
      let rest = write rs w addr bytes in
      if contains r addr
      then (do (r', w') ← region_write r w addr bytes; ok (true, r' ∷ rs, w'))
      else (do (done, rs', w') ← rest; ok (done, r ∷ rs', w'))

  unfoldable pub tick : List (MmioDeviceRegion D) → W → Result (List (MmioDeviceRegion D) × W)
  tick [] w = ok ([], w)
  tick (r ∷ rs) w = do
    (d, w₁) ← dev.tick r.mmio_device w
    (rs', w₂) ← tick rs w₁
    ok (record r { mmio_device = d } ∷ rs', w₂)

module _ {D W : Type 0} (dev : MmioDevice D W) where
  unfoldable pub region_irq_handler : MmioDeviceRegion D → MmioDeviceRegion D
  region_irq_handler r = record r { mmio_device = dev.irq_handler r.mmio_device }

  unfoldable pub region_vm_fd : MmioDeviceRegion D → MmioDeviceRegion D
  region_vm_fd r = record r { mmio_device = dev.vm_fd r.mmio_device }

  unfoldable pub region_pass_guest_memory : MmioDeviceRegion D → MmioDeviceRegion D
  region_pass_guest_memory r = record r { mmio_device = dev.pass_guest_memory r.mmio_device }

  unfoldable pub pass_guest_memory : List (MmioDeviceRegion D) → List (MmioDeviceRegion D)
  unfolding region_pass_guest_memory
  pass_guest_memory [] = []
  pass_guest_memory (r ∷ rs) = region_pass_guest_memory r ∷ pass_guest_memory rs

-- ===== src/DeviceMap/Io.antt =====
-- The port space: src/device_maps/io.rs.
use ferrum_vm.Prelude.{
  ℕ, ◌-◌, Bool, true, false, not, ◌&&◌, Option, none, some, List, [], ◌∷◌, ◌++◌, leb, if◌then◌else◌,
  Result, ok, ◌>>=◌,
}

-- The trait `IODevice`. `irq_handler` attaches the shared handler.
pub record IoDevice (D W : Type 0) : Type 0 where
  pub input : D → W → ℕ → ℕ → Result (List ℕ × D × W)
  pub output : D → W → ℕ → List ℕ → Result (D × W)
  pub irq_handler : D → D
  pub tick : D → W → Result (D × W)

pub record IoDeviceRegion (D : Type 0) : Type 0 where
  pub io_device : D
  pub start : ℕ
  pub end : ℕ

module _ {D : Type 0} where
  unfoldable pub new_region : ℕ → ℕ → D → IoDeviceRegion D
  new_region start end device = record { io_device = device; start = start; end = end }

  unfoldable pub contains : IoDeviceRegion D → ℕ → Bool
  contains r port = leb r.start port && leb port r.end

  -- `IODeviceMap::register`.
  unfoldable pub register : List (IoDeviceRegion D) → IoDeviceRegion D → List (IoDeviceRegion D)
  register devices region = devices ++ (region ∷ [])

module _ {D W : Type 0} (dev : IoDevice D W) where
  unfoldable pub region_input :
      IoDeviceRegion D → W → ℕ → ℕ → Result (Option (List ℕ) × IoDeviceRegion D × W)
  region_input r w port len = if not (contains r port) then ok (none, r, w) else (do
    (bytes, d, w') ← dev.input r.io_device w (port - r.start) len
    ok (some bytes, record r { io_device = d }, w'))

  unfoldable pub region_output :
      IoDeviceRegion D → W → ℕ → List ℕ → Result (Bool × IoDeviceRegion D × W)
  region_output r w port bytes = if not (contains r port) then ok (false, r, w) else (do
    (d, w') ← dev.output r.io_device w (port - r.start) bytes
    ok (true, record r { io_device = d }, w'))

  unfoldable pub region_irq_handler : IoDeviceRegion D → IoDeviceRegion D
  region_irq_handler r = record r { io_device = dev.irq_handler r.io_device }

  -- `IODeviceMap`: the first region that contains the port answers.
  unfoldable pub input :
      List (IoDeviceRegion D) → W → ℕ → ℕ → Result (Option (List ℕ) × List (IoDeviceRegion D) × W)
  input [] w port len = ok (none, [], w)
  input (r ∷ rs) w port len =
      let rest = input rs w port len in
      if contains r port
      then (do (bytes, r', w') ← region_input r w port len; ok (bytes, r' ∷ rs, w'))
      else (do (bytes, rs', w') ← rest; ok (bytes, r ∷ rs', w'))

  unfoldable pub output :
      List (IoDeviceRegion D) → W → ℕ → List ℕ → Result (Bool × List (IoDeviceRegion D) × W)
  output [] w port bytes = ok (false, [], w)
  output (r ∷ rs) w port bytes =
      let rest = output rs w port bytes in
      if contains r port
      then (do (_, r', w') ← region_output r w port bytes; ok (true, r' ∷ rs, w'))
      else (do (done, rs', w') ← rest; ok (done, r ∷ rs', w'))

  unfoldable pub tick : List (IoDeviceRegion D) → W → Result (List (IoDeviceRegion D) × W)
  tick [] w = ok ([], w)
  tick (r ∷ rs) w = do
    (d, w₁) ← dev.tick r.io_device w
    (rs', w₂) ← tick rs w₁
    ok (record r { io_device = d } ∷ rs', w₂)

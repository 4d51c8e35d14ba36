-- ===== src/Virtio/Gpu/Command/Table.antt =====
-- The resource table and the scanouts under the commands of the GPU device
-- (src/devices/virtio/devices/gpu.rs).
use ferrum_vm.Prelude.{
  ℕ, zero, suc, ◌*◌, ◌≤◌, ◌<◌, ◌≡◌, refl, ap, ◌∙◌, true, false, not, ◌&&◌, some, List, [], ◌∷◌,
  length, set, ◌!=◌, if◌then◌else◌, arith, length-replicate,
}
use ferrum_vm.Prelude.HashMap
use ferrum_vm.Prelude.HashMap.{
  get-insert, get-remove, length-insert, length-insert_old, length-remove,
}
use ferrum_vm.Virtio.Gpu.{
  max_resources, max_resource_bytes, max_resource_dimension, max_scanouts, bytes_per_pixel,
}
use ferrum_vm.Virtio.Gpu.Wire.{VirtioGpuSetScanout}
use ferrum_vm.Virtio.Gpu.Resource.{GpuResource, new_resource}
use ferrum_vm.Virtio.Gpu.Command.{
  VirtioGpu, VirtioGpuScanout, empty_scanout, shows, unbind, bind_scanout,
}
use ferrum_vm.Virtio.Gpu.Wire.{VirtioGpuMemEntry}

-- A resource has the size that its geometry gives, within the limits.
pub record IsResource (r : GpuResource) : Type 0 where
  pub wide : (0 < r.width) × (r.width ≤ max_resource_dimension)
  pub high : (0 < r.height) × (r.height ≤ max_resource_dimension)
  pub rows : r.stride ≡ r.width * bytes_per_pixel
  pub filled : length r.pixels ≡ r.stride * r.height
  pub bounded : length r.pixels ≤ max_resource_bytes

-- A scanout shows nothing, or a resource of the table.
abbrev pub IsBound : List (ℕ × GpuResource) → VirtioGpuScanout → Type 0
IsBound m s = (k : ℕ) → s.resource_id ≡ some k → HashMap.contains_key m k ≡ true

unfoldable pub AllBound : List (ℕ × GpuResource) → List VirtioGpuScanout → Type 0
AllBound m [] = Unit {0}
AllBound m (s ∷ ss) = IsBound m s × AllBound m ss

pub record IsTable {W : Type 0} (d : VirtioGpu W) : Type 0 where
  pub good : (k : ℕ) (r : GpuResource) → HashMap.get d.resources k ≡ some r → IsResource r
  pub few : length d.resources ≤ max_resources
  pub screens : length d.scanouts ≡ max_scanouts
  pub bound : AllBound d.resources d.scanouts

pub new_resource-IsResource :
    (format width height : ℕ) (r : GpuResource)
    → new_resource format width height ≡ some r
    → IsResource r
unfolding new_resource
new_resource-IsResource format width height r h =
    grind (arith, length-replicate {A = ℕ} (width * bytes_per_pixel * height) 0)

pub pixels-IsResource :
    (r : GpuResource) (px : List ℕ)
    → length px ≡ length r.pixels
    → IsResource r
    → IsResource (record r { pixels = px })
pixels-IsResource r px e g = record {
  wide = g.wide;
  high = g.high;
  rows = g.rows;
  filled = e ∙ g.filled;
  bounded = omega (arith, e, g.bounded);
}

pub backing-IsResource :
    (r : GpuResource) (es : List VirtioGpuMemEntry)
    → IsResource r
    → IsResource (record r { backing = es })
backing-IsResource r es g = record {
  wide = g.wide;
  high = g.high;
  rows = g.rows;
  filled = g.filled;
  bounded = g.bounded;
}

pub AllBound-mono :
    (m m' : List (ℕ × GpuResource)) (ss : List VirtioGpuScanout)
    → ((k : ℕ) → HashMap.contains_key m k ≡ true → HashMap.contains_key m' k ≡ true)
    → AllBound m ss
    → AllBound m' ss
unfolding AllBound
AllBound-mono m m' [] f h = tt
AllBound-mono m m' (s ∷ ss) f (h, hs) = (λ k e. f k (h k e), AllBound-mono m m' ss f hs)

pub contains_key-insert :
    (m : List (ℕ × GpuResource)) (j : ℕ) (r : GpuResource) (k : ℕ)
    → HashMap.contains_key m k ≡ true
    → HashMap.contains_key (HashMap.insert m j r) k ≡ true
contains_key-insert m j r k h = ground (arith, get-insert m j r k)

pub AllBound-set :
    (m : List (ℕ × GpuResource)) (ss : List VirtioGpuScanout) (i : ℕ) (s : VirtioGpuScanout)
    → IsBound m s
    → AllBound m ss
    → AllBound m (set ss i s)
unfolding AllBound
AllBound-set m [] i s b h = tt
AllBound-set m (t ∷ ss) zero s b (h, hs) = (b, hs)
AllBound-set m (t ∷ ss) (suc i) s b (h, hs) = (h, AllBound-set m ss i s b hs)

pub empty_scanout-IsBound : (m : List (ℕ × GpuResource)) → IsBound m empty_scanout
empty_scanout-IsBound m k e = cc

IsBound-remove :
    (m : List (ℕ × GpuResource)) (id : ℕ) (s : VirtioGpuScanout)
    → IsBound m s
    → IsBound (HashMap.remove m id) (if shows id s then empty_scanout else s)
IsBound-remove m id s h k e = ground (arith, get-remove m id k, h k)

pub AllBound-unbind :
    (m : List (ℕ × GpuResource)) (id : ℕ) (ss : List VirtioGpuScanout)
    → AllBound m ss
    → AllBound (HashMap.remove m id) (unbind id ss)
unfolding AllBound unbind
AllBound-unbind m id [] h = tt
AllBound-unbind m id (s ∷ ss) (h, hs) = (IsBound-remove m id s h, AllBound-unbind m id ss hs)

pub length-unbind : (id : ℕ) (ss : List VirtioGpuScanout) → length (unbind id ss) ≡ length ss
unfolding unbind
length-unbind id [] = refl
length-unbind id (s ∷ ss) = ap suc (length-unbind id ss)

pub bind_scanout-IsBound :
    (m : List (ℕ × GpuResource)) (req : VirtioGpuSetScanout)
    → (req.resource_id != 0 && not (HashMap.contains_key m req.resource_id)) ≡ false
    → IsBound m (bind_scanout req)
unfolding bind_scanout
bind_scanout-IsBound m req known k e = ground arith

module _ {W : Type 0} where
  -- Overwriting a resource of the table with a good one keeps the table.
  pub update-IsTable :
      (d : VirtioGpu W) (id : ℕ) (r r' : GpuResource)
      → HashMap.get d.resources id ≡ some r
      → IsResource r'
      → IsTable d
      → IsTable (record d { resources = HashMap.insert d.resources id r' })
  update-IsTable d id r r' e g t = record {
    good = λ k q h. grind (arith, get-insert d.resources id r' k, t.good k q);
    few = omega (arith, length-insert_old d.resources id r' e, t.few);
    screens = t.screens;
    bound =
        AllBound-mono d.resources (HashMap.insert d.resources id r') d.scanouts
          (contains_key-insert d.resources id r') t.bound;
  }

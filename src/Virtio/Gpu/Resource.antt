-- ===== src/Virtio/Gpu/Resource.antt =====
-- The resources of the GPU device: `GpuResource` and `read_backing_range` of
-- src/devices/virtio/devices/gpu.rs.
use ferrum_vm.Prelude.{
  ℕ, zero, suc, ◌+◌, ◌-◌, ◌*◌, ◌<◌, min, Bool, true, false, not, ◌&&◌, ◌||◌, Option, none, some,
  List, [], ◌∷◌, ◌++◌, length, take, drop, replicate, ◌==◌, ◌!=◌, ltb, leb, if◌then◌else◌, Result,
  ok, panic, no_fuel, ◌>>=◌, Build, u32_mod, u64_mod,
}
use ferrum_vm.Memory.{GuestMemory, read_guest_memory_alloc}
use ferrum_vm.Virtio.Gpu.{DisplayRect, max_resource_bytes, max_resource_dimension, bytes_per_pixel}
use ferrum_vm.Virtio.Gpu.Wire.{VirtioGpuMemEntry}
pub mod Backing

-- `saturating_add` and `saturating_mul` on words below `m`, `checked_add` and `checked_mul`.
abbrev pub saturating_add : ℕ → ℕ → ℕ → ℕ
saturating_add m x y = min (x + y) (m - 1)

abbrev pub saturating_mul : ℕ → ℕ → ℕ → ℕ
saturating_mul m x y = min (x * y) (m - 1)

abbrev pub checked : ℕ → ℕ → Option ℕ
checked m x = if ltb x m then some x else none

pub record GpuResource : Type 0 where
  pub width : ℕ
  pub height : ℕ
  pub backing : List VirtioGpuMemEntry
  pub pixels : List ℕ  -- the field `data`
  pub stride : ℕ

-- `SUPPORTED_FORMATS.contains(&format)`.
abbrev pub is_supported : ℕ → Bool
is_supported format = format == 1 || (format == 2 || (format == 3 || format == 4))

unfoldable pub new_resource : ℕ → ℕ → ℕ → Option GpuResource
new_resource format width height =
    if not (is_supported format)
    then none
    else if width == 0 || height == 0
    then none
    else if ltb max_resource_dimension width || ltb max_resource_dimension height
    then none
    else elim (checked u64_mod (width * bytes_per_pixel)) [
      | none ↦ none
      | some stride ↦ elim (checked u64_mod (stride * height)) [
        | none ↦ none
        | some len ↦
            if ltb max_resource_bytes len
            then none
            else some (record {
              width = width;
              height = height;
              backing = [];
              pixels = replicate len 0;
              stride = stride;
            })
      ]
    ]

unfoldable pub contains : GpuResource → DisplayRect → Bool
contains r rect =
    rect.width != 0
    && (rect.height != 0
        && (ltb rect.x r.width
            && (ltb rect.y r.height
                && (leb (saturating_add u32_mod rect.x rect.width) r.width
                    && leb (saturating_add u32_mod rect.y rect.height) r.height))))

-- The fold of `backing_len`, from `acc` on.
unfoldable pub sum_lengths : ℕ → List VirtioGpuMemEntry → ℕ
sum_lengths acc [] = acc
sum_lengths acc (e ∷ es) = sum_lengths (saturating_add u64_mod acc e.length) es

unfoldable pub backing_len : GpuResource → ℕ
backing_len r = sum_lengths 0 r.backing

-- `out[at..at + n].copy_from_slice(bytes)`.
unfoldable pub copy_slice : List ℕ → ℕ → ℕ → List ℕ → Result (List ℕ)
copy_slice out at n bytes =
    if leb (at + n) (length out) && length bytes == n
    then ok (take at out ++ (bytes ++ drop (at + n) out))
    else panic

module _ (b : Build) (mem : GuestMemory) (start : ℕ) where
  -- The loop of `read_backing_range`.
  unfoldable pub read_entries : List VirtioGpuMemEntry → ℕ → ℕ → List ℕ → Result (List ℕ)
  read_entries [] copied skipped out = ok out
  read_entries (e ∷ es) copied skipped out =
      let entry_start = start - skipped in
      let skipped' = saturating_add u64_mod skipped e.length in
      elim (copied == length out) [
        | true ↦ ok out
        | false ↦ elim (ltb entry_start e.length) [
          | true ↦ elim (checked u64_mod (e.addr + entry_start)) [
            | none ↦ ok out
            | some addr ↦ (do
              let n = min (e.length - entry_start) (length out - copied)
              tmp ← read_guest_memory_alloc b mem addr n
              out' ← copy_slice out copied n tmp
              read_entries es (copied + n) skipped' out')
          ]
          | false ↦ read_entries es copied skipped' out
        ]
      ]

unfoldable pub read_backing_range : Build → GuestMemory → GpuResource → ℕ → List ℕ → Result (List ℕ)
read_backing_range b mem r start out = read_entries b mem start r.backing 0 0 out

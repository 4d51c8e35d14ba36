-- ===== src/Virtio/Gpu.antt =====
-- The GPU device: src/devices/virtio/devices/gpu.rs. Here: its constants, the display that it draws on
-- (src/platform/display.rs), and its configuration space.
use ferrum_vm.Prelude.{
  ℕ, ◌+◌, ◌-◌, ◌*◌, ◌/◌, ◌%◌, ◌^◌, bit_and, bit_or, Bool, true, false, ◌||◌, ◌&&◌, Option, none,
  some, List, [], ◌∷◌, ◌++◌, length, take, drop, replicate, ◌==◌, ltb, leb, if◌then◌else◌, is_empty,
  u32_mod,
}
use ferrum_vm.Prelude.Bytes.{le_bytes, from_le}
pub mod Wire
pub mod Gather
pub mod Resource
pub mod Command
pub mod Device
mod Examples

abbrev pub max_scanouts : ℕ
max_scanouts = 16

abbrev pub max_request_bytes : ℕ
max_request_bytes = 256 * 1024

abbrev pub max_resource_bytes : ℕ
max_resource_bytes = 256 * 1024 * 1024

abbrev pub max_resource_dimension : ℕ
max_resource_dimension = 16384

abbrev pub max_resources : ℕ
max_resources = 64

abbrev pub bytes_per_pixel : ℕ
bytes_per_pixel = 4

pub record DisplayRect : Type 0 where
  pub x : ℕ
  pub y : ℕ
  pub width : ℕ
  pub height : ℕ

abbrev pub empty_rect : DisplayRect
empty_rect = record { x = 0; y = 0; width = 0; height = 0 }

-- What the device uses of the trait `DisplayBackend`.
pub record DisplayBackend (W : Type 0) : Type 0 where
  pub get_display_size : W → ℕ × ℕ
  pub blit : W → List ℕ → ℕ → DisplayRect → W

pub record VirtioGpuConfig : Type 0 where
  pub events_read : ℕ
  pub events_clear : ℕ
  pub num_scanouts : ℕ
  pub num_capsets : ℕ

unfoldable pub new_config : ℕ → ℕ → ℕ → Option VirtioGpuConfig
new_config events_clear num_scanouts num_capsets =
    if num_scanouts == 0 || ltb 16 num_scanouts
    then none
    else some (record {
      events_read = 0;
      events_clear = events_clear;
      num_scanouts = num_scanouts;
      num_capsets = num_capsets;
    })

-- `to_bytes`, with `buf.resize(length, 0)`.
unfoldable pub config_to_bytes : VirtioGpuConfig → ℕ → List ℕ
config_to_bytes c len =
    let buf =
      le_bytes 4 c.events_read
      ++ (le_bytes 4 c.events_clear ++ (le_bytes 4 c.num_scanouts ++ le_bytes 4 c.num_capsets)) in
    take len (buf ++ replicate (len - length buf) 0)

-- The bits of the bytes from `start` to `start + len` of a 32-bit field: `!0u32 << (start * 8)` and
-- `!0u32 >> (32 - (start + len) * 8)`.
unfoldable pub field_mask : ℕ → ℕ → ℕ
field_mask start len =
    bit_and (((u32_mod - 1) * 2 ^ (start * 8)) % u32_mod)
      ((u32_mod - 1) / 2 ^ (32 - (start + len) * 8))

-- `events_clear` with the masked bits taken from the written bytes.
unfoldable pub merge_field : ℕ → ℕ → List ℕ → ℕ
merge_field cur start bytes =
    let mask = field_mask start (length bytes) in
    let buf = replicate start 0 ++ (bytes ++ replicate (4 - (start + length bytes)) 0) in
    bit_or (bit_and cur (u32_mod - 1 - mask)) (bit_and (from_le buf) mask)

unfoldable pub write_field : VirtioGpuConfig → ℕ → List ℕ → VirtioGpuConfig
write_field c offset bytes =
    if is_empty bytes || ltb 4 (length bytes)
    then c
    else if ltb 4 (offset % 4 + length bytes)
    then c
    else if offset / 4 == 1
    then record c { events_clear = merge_field c.events_clear (offset % 4) bytes }
    else c

unfoldable pub reset_config : VirtioGpuConfig → VirtioGpuConfig
reset_config c = record c { events_read = 0; events_clear = 0 }

-- ===== src/Virtio/Gpu/Command.antt =====
-- The commands of the GPU device: the arms of the match on `header.typ` in `tick`,
-- src/devices/virtio/devices/gpu.rs.
use ferrum_vm.Prelude.{
  ℕ, zero, suc, ◌+◌, ◌-◌, ◌*◌, min, Bool, true, false, not, ◌&&◌, Option, none, some, List, [], ◌∷◌,
  ◌++◌, length, take, drop, set, replicate, map, ◌==◌, ◌!=◌, ltb, leb, if◌then◌else◌, Result, ok,
  panic, ◌>>=◌, Build, u64_mod,
}
use ferrum_vm.Prelude.HashMap
use ferrum_vm.Memory.{GuestMemory}
use ferrum_vm.Virtio.Gpu.{
  DisplayRect, DisplayBackend, VirtioGpuConfig, empty_rect, bytes_per_pixel, max_scanouts,
  max_resources,
}
use ferrum_vm.Virtio.Gpu.Wire.{
  VirtioGpuSetScanout, VirtioGpuTransferToHost, display_info, display_response, response_to_bytes,
  create_from_bytes, drop_from_bytes, set_scanout_from_bytes, transfer_from_bytes, flush_from_bytes,
  attach_from_bytes, detach_from_bytes,
}
use ferrum_vm.Virtio.Gpu.Resource.{
  GpuResource, new_resource, contains, backing_len, saturating_mul, checked, read_backing_range,
  copy_slice,
}
pub mod Run
pub mod Table
pub mod Transfer
pub mod Keeps
pub mod Blit

abbrev pub resp_ok_nodata : ℕ
resp_ok_nodata = 0x1100

abbrev pub resp_err_unsupported : ℕ
resp_err_unsupported = 0x1201

abbrev pub resp_err_invalid_argument : ℕ
resp_err_invalid_argument = 0x1202

abbrev pub resp_err_invalid_resource_id : ℕ
resp_err_invalid_resource_id = 0x1203

pub data GpuResponse : Type 0 where
  header : ℕ → GpuResponse
  raw : List ℕ → GpuResponse

pub record VirtioGpuScanout : Type 0 where
  pub resource_id : Option ℕ
  pub rect : DisplayRect

abbrev pub empty_scanout : VirtioGpuScanout
empty_scanout = record { resource_id = none; rect = empty_rect }

pub record VirtioGpu (W : Type 0) : Type 0 where
  pub guest_memory : Bool  -- whether a handle was passed
  pub config : VirtioGpuConfig
  pub window : W
  pub resources : List (ℕ × GpuResource)  -- `HashMap`
  pub scanouts : List VirtioGpuScanout

-- `scanout.resource_id == Some(id)`.
abbrev pub shows : ℕ → VirtioGpuScanout → Bool
shows id scanout = elim scanout.resource_id [ none ↦ false | some k ↦ k == id ]

-- The loop over the scanouts that show the resource.
unfoldable pub unbind : ℕ → List VirtioGpuScanout → List VirtioGpuScanout
unbind id [] = []
unbind id (s ∷ ss) = (if shows id s then empty_scanout else s) ∷ unbind id ss

unfoldable pub bind_scanout : VirtioGpuSetScanout → VirtioGpuScanout
bind_scanout req =
    if req.resource_id == 0
    then empty_scanout
    else record { resource_id = some req.resource_id; rect = req.rect }

-- A command's reply, and the device after it.
abbrev pub Reply : Type 0 → Type 0
Reply W = GpuResponse × VirtioGpu W

module _ {W : Type 0} where
  abbrev pub refuse : ℕ → VirtioGpu W → Reply W
  refuse typ d = (header typ, d)

  unfoldable pub get_display_info : DisplayBackend W → VirtioGpu W → Reply W
  get_display_info display d =
      let displays = display_info (display.get_display_size d.window) ∷ [] in
      (raw (response_to_bytes (display_response displays)), d)

  unfoldable pub resource_create : VirtioGpu W → List ℕ → Reply W
  resource_create d bytes = elim (create_from_bytes bytes) [
    | none ↦ refuse resp_err_invalid_argument d
    | some req ↦
        if HashMap.contains_key d.resources req.resource_id
        then refuse resp_err_invalid_resource_id d
        else if leb max_resources (length d.resources)
        then refuse resp_err_invalid_argument d
        else elim (new_resource req.format req.width req.height) [
          | none ↦ refuse resp_err_invalid_argument d
          | some resource ↦ (
            header resp_ok_nodata,
            record d { resources = HashMap.insert d.resources req.resource_id resource },
          )
        ]
  ]

  unfoldable pub resource_unref : VirtioGpu W → List ℕ → Reply W
  resource_unref d bytes = elim (drop_from_bytes bytes) [
    | none ↦ refuse resp_err_invalid_argument d
    | some req ↦ (
      header resp_ok_nodata,
      record d {
        resources = HashMap.remove d.resources req.resource_id;
        scanouts = unbind req.resource_id d.scanouts;
      },
    )
  ]

  unfoldable pub set_scanout : VirtioGpu W → List ℕ → Reply W
  set_scanout d bytes = elim (set_scanout_from_bytes bytes) [
    | none ↦ refuse resp_err_invalid_argument d
    | some req ↦
        if leb max_scanouts req.scanout_id
        then refuse resp_err_invalid_argument d
        else if req.resource_id != 0 && not (HashMap.contains_key d.resources req.resource_id)
        then refuse resp_err_invalid_resource_id d
        else (
          header resp_ok_nodata,
          record d { scanouts = set d.scanouts req.scanout_id (bind_scanout req) },
        )
  ]

  -- The loop over the scanouts that draws the whole of each that shows the resource.
  unfoldable pub blit_scanouts : DisplayBackend W → ℕ → GpuResource → List VirtioGpuScanout → W → W
  blit_scanouts display id r [] w = w
  blit_scanouts display id r (s ∷ ss) w =
      blit_scanouts display id r ss
        (if shows id s then display.blit w r.pixels r.stride s.rect else w)

  unfoldable pub resource_flush : DisplayBackend W → VirtioGpu W → List ℕ → Reply W
  resource_flush display d bytes = elim (flush_from_bytes bytes) [
    | none ↦ refuse resp_err_invalid_argument d
    | some req ↦ elim (HashMap.get d.resources req.resource_id) [
      | none ↦ refuse resp_err_invalid_resource_id d
      | some resource ↦ (
        header resp_ok_nodata,
        record d { window = blit_scanouts display req.resource_id resource d.scanouts d.window },
      )
    ]
  ]

  unfoldable pub attach_backing : VirtioGpu W → List ℕ → Reply W
  attach_backing d bytes = elim (attach_from_bytes bytes) [
    | none ↦ refuse resp_err_invalid_argument d
    | some req ↦ elim (HashMap.get d.resources req.hdr.resource_id) [
      | none ↦ refuse resp_err_invalid_resource_id d
      | some resource ↦ (
        header resp_ok_nodata,
        record d {
          resources =
              HashMap.insert d.resources req.hdr.resource_id
                (record resource { backing = req.mem_entries });
        },
      )
    ]
  ]

  unfoldable pub detach_backing : VirtioGpu W → List ℕ → Reply W
  detach_backing d bytes = elim (detach_from_bytes bytes) [
    | none ↦ refuse resp_err_invalid_argument d
    | some req ↦ elim (HashMap.get d.resources req.resource_id) [
      | none ↦ refuse resp_err_invalid_resource_id d
      | some resource ↦ (
        header resp_ok_nodata,
        record d {
          resources = HashMap.insert d.resources req.resource_id (record resource { backing = [] });
        },
      )
    ]
  ]

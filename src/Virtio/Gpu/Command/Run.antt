-- ===== src/Virtio/Gpu/Command/Run.antt =====
-- The transfer of pixels and the match on the type of a command, in `tick` of
-- src/devices/virtio/devices/gpu.rs.
use ferrum_vm.Prelude.{
  ℕ, zero, suc, ◌+◌, ◌-◌, ◌*◌, min, not, Option, none, some, List, length, take, replicate, ◌==◌,
  ltb, if◌then◌else◌, Result, ok, ◌>>=◌, Build, u64_mod,
}
use ferrum_vm.Prelude.HashMap
use ferrum_vm.Memory.{GuestMemory}
use ferrum_vm.Virtio.Gpu.{DisplayRect, DisplayBackend, bytes_per_pixel}
use ferrum_vm.Virtio.Gpu.Wire.{VirtioGpuTransferToHost, transfer_from_bytes}
use ferrum_vm.Virtio.Gpu.Resource.{
  GpuResource, contains, backing_len, saturating_mul, checked, read_backing_range, copy_slice,
}
use ferrum_vm.Virtio.Gpu.Command.{
  resp_ok_nodata, resp_err_unsupported, resp_err_invalid_argument, resp_err_invalid_resource_id,
  VirtioGpu, Reply, refuse, get_display_info, resource_create, resource_unref, set_scanout,
  resource_flush, attach_backing, detach_backing, header,
}

-- `base` of a transfer: where its first byte is in the backing pages.
unfoldable pub transfer_base : VirtioGpuTransferToHost → ℕ → Option ℕ
transfer_base req stride =
    elim (checked u64_mod (req.offset + saturating_mul u64_mod req.rect.y stride)) [
      | none ↦ none
      | some v ↦ checked u64_mod (v + req.rect.x * bytes_per_pixel)
    ]

-- A round of the loop over the rows of a transfer: the row buffer and the pixels after it, or `none`
-- for a `break`, which leaves the pixels as they were.
unfoldable pub transfer_row :
    Build
    → GuestMemory
    → GpuResource
    → DisplayRect
    → ℕ
    → ℕ
    → List ℕ
    → List ℕ
    → Result (Option (List ℕ × List ℕ))
transfer_row b mem r rect base row row_buf pixels =
    elim (checked u64_mod (base + saturating_mul u64_mod row r.stride)) [
      | none ↦ ok none
      | some src ↦ (do
        row_buf' ← read_backing_range b mem r src row_buf
        let dst_start = (rect.y + row) * r.stride + rect.x * bytes_per_pixel
        let copy_len = min (length row_buf') (length pixels - dst_start)
        if copy_len == 0 then ok none else (do
          pixels' ← copy_slice pixels dst_start copy_len (take copy_len row_buf')
          ok (some (row_buf', pixels'))))
    ]

-- The loop, from `row` on with the rows left.
unfoldable pub transfer_rows :
    Build → GuestMemory → GpuResource → DisplayRect → ℕ → ℕ → ℕ → List ℕ → List ℕ → Result (List ℕ)
transfer_rows b mem r rect base zero row row_buf pixels = ok pixels
transfer_rows b mem r rect base (suc left) row row_buf pixels = do
  next ← transfer_row b mem r rect base row row_buf pixels
  elim next [
    | none ↦ ok pixels
    | some (row_buf', pixels') ↦ transfer_rows b mem r rect base left (suc row) row_buf' pixels'
  ]

module _ {W : Type 0} (b : Build) (mem : GuestMemory) where
  unfoldable pub transfer_to_host : VirtioGpu W → List ℕ → Result (Reply W)
  transfer_to_host d bytes = elim (transfer_from_bytes bytes) [
    | none ↦ ok (refuse resp_err_invalid_argument d)
    | some req ↦ elim (HashMap.get d.resources req.resource_id) [
      | none ↦ ok (refuse resp_err_invalid_resource_id d)
      | some r ↦
          if not (contains r req.rect)
          then ok (refuse resp_err_invalid_argument d)
          else elim (transfer_base req r.stride) [
            | none ↦ ok (refuse resp_err_invalid_argument d)
            | some base ↦
                if ltb (backing_len r) base then ok (refuse resp_err_invalid_argument d) else (do
                  pixels ←
                      transfer_rows b mem r req.rect base req.rect.height 0
                        (replicate (req.rect.width * bytes_per_pixel) 0) r.pixels
                  ok (
                    header resp_ok_nodata,
                    record d {
                      resources =
                          HashMap.insert d.resources req.resource_id (record r { pixels = pixels });
                    },
                  ))
          ]
    ]
  ]

  -- The match on `header.typ`.
  unfoldable pub run_command : DisplayBackend W → ℕ → VirtioGpu W → List ℕ → Result (Reply W)
  run_command display typ d bytes =
      if typ == 0x0100
      then ok (get_display_info display d)
      else if typ == 0x0101
      then ok (resource_create d bytes)
      else if typ == 0x0102
      then ok (resource_unref d bytes)
      else if typ == 0x0103
      then ok (set_scanout d bytes)
      else if typ == 0x0104
      then ok (resource_flush display d bytes)
      else if typ == 0x0105
      then transfer_to_host d bytes
      else if typ == 0x0106
      then ok (attach_backing d bytes)
      else if typ == 0x0107
      then ok (detach_backing d bytes)
      else if typ == 0x010A
      then ok (header resp_ok_nodata, d)
      else if typ == 0x010C
      then ok (header resp_ok_nodata, d)
      else ok (header resp_err_unsupported, d)

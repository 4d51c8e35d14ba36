-- ===== src/Virtio/Gpu/Command/Blit.antt =====
-- A transfer to a resource of the GPU device against the rows of its backing pages
-- (`VIRTIO_GPU_CMD_TRANSFER_TO_HOST_2D` in src/devices/virtio/devices/gpu.rs).
use ferrum_vm.Prelude.{
  ℕ, zero, suc, ◌+◌, ◌-◌, ◌*◌, ◌≤◌, ◌<◌, ◌≡◌, refl, ap, ◌∙◌, min, true, false, some, List, [], ◌∷◌,
  length, take, drop, replicate, ◌==◌, ltb, arith, ok, Build, u64_mod, length-take, length-drop,
  length-replicate, length-append,
}
use ferrum_vm.Prelude.HashMap
use ferrum_vm.Prelude.Overlay.{overlay, length-overlay, overlay_whole, take_all}
use ferrum_vm.Memory.{GuestMemory}
use ferrum_vm.Memory.RoundTrip.{peek}
use ferrum_vm.Memory.Held.{length-peek}
use ferrum_vm.Virtio.Gpu.{DisplayRect, bytes_per_pixel}
use native.Mathlib.Nat.{mul-le-mul_right}
use ferrum_vm.Virtio.Gpu.Wire.{VirtioGpuTransferToHost, VirtioGpuMemEntry, transfer_from_bytes}
use ferrum_vm.Virtio.Gpu.Resource.{
  GpuResource, contains, sum_lengths, backing_len, checked, saturating_mul, saturating_add,
  read_backing_range,
}
use ferrum_vm.Virtio.Gpu.Resource.Backing.{
  backing_bytes, AllHeld, copy_slice-eq-overlay, read_backing_range-eq-overlay,
}
use ferrum_vm.Virtio.Gpu.Command.{VirtioGpu, header, resp_ok_nodata}
use ferrum_vm.Virtio.Gpu.Command.Run.{transfer_base, transfer_row, transfer_rows, transfer_to_host}
use ferrum_vm.Virtio.Gpu.Command.Table.{IsResource, IsTable}

-- The rows of a rectangle, `len` bytes each: row `i` is copied from `base + i * stride` in the bytes to
-- `dst + i * stride` in the pixels.
abbrev pub blit_rows : List ℕ → ℕ → ℕ → ℕ → ℕ → ℕ → ℕ → List ℕ → List ℕ
blit_rows bytes stride base dst len zero row pixels = pixels
blit_rows bytes stride base dst len (suc left) row pixels =
    blit_rows bytes stride base dst len left (suc row)
      (overlay pixels (dst + row * stride) (take len (drop (base + row * stride) bytes)))

-- Where a rectangle begins in the pixels.
abbrev pub dst_start : ℕ → DisplayRect → ℕ
dst_start stride rect = rect.y * stride + rect.x * bytes_per_pixel

module _ (b : Build) (mem : GuestMemory) (r : GpuResource) (rect : DisplayRect) (base : ℕ)
    (held : AllHeld mem 0 r.backing) where
  transfer_row-eq-overlay :
      (row : ℕ) (row_buf pixels : List ℕ)
      → 0 < length row_buf
      → base + row * r.stride + length row_buf ≤ length (backing_bytes mem r.backing)
      → length (backing_bytes mem r.backing) < u64_mod
      → dst_start r.stride rect + row * r.stride + length row_buf ≤ length pixels
      → transfer_row b mem r rect base row row_buf pixels
        ≡ ok (
            some (
              take (length row_buf) (drop (base + row * r.stride) (backing_bytes mem r.backing)),
              overlay pixels (dst_start r.stride rect + row * r.stride) (
                  take
                    (length row_buf)
                    (drop (base + row * r.stride) (backing_bytes mem r.backing))),
            ))
  unfolding transfer_row
  transfer_row-eq-overlay row row_buf pixels pos there small fits =
      let bytes = backing_bytes mem r.backing in
      let src = base + row * r.stride in
      let line = take (length row_buf) (drop src bytes) in
      let size : length line ≡ length row_buf =
        omega (arith, length-take (length row_buf) (drop src bytes), length-drop src bytes) in
      let dst : (rect.y + row) * r.stride + rect.x * bytes_per_pixel
          ≡ dst_start r.stride rect + row * r.stride =
        omega arith in
      let sum : checked u64_mod (base + saturating_mul u64_mod row r.stride) ≡ some src =
        ground (arith) in
      let got : read_backing_range b mem r src row_buf ≡ ok line =
        read_backing_range-eq-overlay b mem r src row_buf held
        ∙ ap ok (overlay_whole row_buf (drop src bytes) (omega (arith, length-drop src bytes))) in
      let n : min (length line) (length pixels - (dst_start r.stride rect + row * r.stride))
          ≡ length line =
        omega (arith, size) in
      let some_bytes : (length line == 0) ≡ false = ground (arith, size) in
      rw
        (
          transfer_row,
          sum,
          got,
          dst,
          n,
          some_bytes,
          take_all (length line) line (omega arith),
          copy_slice-eq-overlay pixels (dst_start r.stride rect + row * r.stride) (length line) line
              refl (omega (arith, size)),
        )
        refl

  -- Every row that is left lies in the bytes and in the pixels.
  abbrev Fits : ℕ → ℕ → ℕ → Type 0
  Fits len size last =
      (i : ℕ)
      → i < last
      → (base + i * r.stride + len ≤ length (backing_bytes mem r.backing))
        × (dst_start r.stride rect + i * r.stride + len ≤ size)

  transfer_rows-eq-blit :
      (len left row : ℕ) (row_buf pixels : List ℕ)
      → length row_buf ≡ len
      → 0 < len
      → length (backing_bytes mem r.backing) < u64_mod
      → Fits len (length pixels) (row + left)
      → transfer_rows b mem r rect base left row row_buf pixels
        ≡ ok (
            blit_rows
              (backing_bytes mem r.backing)
              r.stride
              base
              (dst_start r.stride rect)
              len
              left
              row
              pixels)
  unfolding transfer_rows
  transfer_rows-eq-blit len zero row row_buf pixels e pos small fits = refl
  transfer_rows-eq-blit len (suc left) row row_buf pixels e pos small fits =
      let bytes = backing_bytes mem r.backing in
      let src = base + row * r.stride in
      let line = take len (drop src bytes) in
      let (there, room) = fits row (omega arith) in
      let pixels' = overlay pixels (dst_start r.stride rect + row * r.stride) line in
      let same : length pixels' ≡ length pixels =
        length-overlay pixels (dst_start r.stride rect + row * r.stride) line in
      let size : length line ≡ len =
        omega (arith, length-take len (drop src bytes), length-drop src bytes) in
      let step = rw e at (
        transfer_row-eq-overlay row row_buf pixels (omega (arith, e)) (omega (arith, e)) small
          (omega (arith, e))) in
      rw (transfer_rows, step)
        (transfer_rows-eq-blit len left (suc row) line pixels' size pos small
          (λ i h. let (p, q) = fits i (omega arith) in (p, omega (arith, same))))

sum_lengths-eq-length :
    (mem : GuestMemory) (acc : ℕ) (es : List VirtioGpuMemEntry)
    → AllHeld mem acc es
    → acc < u64_mod
    → (sum_lengths acc es ≡ acc + length (backing_bytes mem es))
      × (acc + length (backing_bytes mem es) < u64_mod)
unfolding sum_lengths
sum_lengths-eq-length mem acc [] h small = (omega arith, omega arith)
sum_lengths-eq-length mem acc (e ∷ es) (held, ends, sums, hs) small =
    let sum : saturating_add u64_mod acc e.length ≡ acc + e.length = omega arith in
    let (p, q) = sum_lengths-eq-length mem (acc + e.length) es hs sums in
    let whole = length-append (peek mem e.addr e.length) (backing_bytes mem es) in
    let page = length-peek mem e.addr e.length in
    (rw (sum_lengths, sum) (omega (arith, p, whole, page)), omega (arith, q, whole, page))

-- Where the transfer of a rectangle begins in the backing pages, as the code has it.
abbrev pub src_start : VirtioGpuTransferToHost → ℕ → ℕ
src_start req stride = req.offset + (req.rect.y * stride + req.rect.x * bytes_per_pixel)

contains_inside :
    (r : GpuResource) (rect : DisplayRect)
    → IsResource r
    → contains r rect ≡ true
    → (0 < rect.width)
      × (0 < rect.height)
      × (rect.x + rect.width ≤ r.width)
      × (rect.y + rect.height ≤ r.height)
unfolding contains
contains_inside r rect g h = ground (arith, g.wide, g.high)

-- A row of a rectangle inside the resource ends inside the pixels.
row_fits :
    (r : GpuResource) (rect : DisplayRect) (i : ℕ)
    → IsResource r
    → rect.x + rect.width ≤ r.width
    → rect.y + rect.height ≤ r.height
    → i < rect.height
    → dst_start r.stride rect + i * r.stride + rect.width * bytes_per_pixel ≤ length r.pixels
row_fits r rect i g wide high h =
    let below : (rect.y + i + 1) * r.stride ≤ r.height * r.stride =
      mul-le-mul_right r.stride (omega arith) in
    omega (arith, g.filled, g.rows)

src_fits :
    (base stride len height total i : ℕ)
    → base + (height - 1) * stride + len ≤ total
    → i < height
    → base + i * stride + len ≤ total
src_fits base stride len height total i h k =
    let below : i * stride ≤ (height - 1) * stride = mul-le-mul_right stride (omega arith) in
    omega arith

transfer_base-eq-start :
    (req : VirtioGpuTransferToHost) (stride : ℕ)
    → src_start req stride < u64_mod
    → transfer_base req stride ≡ some (src_start req stride)
unfolding transfer_base
transfer_base-eq-start req stride small = ground arith

-- In both builds, a transfer of a rectangle that the resource contains, with backing pages that guest
-- RAM holds and that reach to the last row of the rectangle as the code places it, returns, answers
-- that it is done, and leaves in the pixels the rows of the backing pages and nothing else new.
pub transfer_to_host-eq-blit :
    {W : Type 0} (b : Build) (mem : GuestMemory) (d : VirtioGpu W) (bytes : List ℕ)
    (req : VirtioGpuTransferToHost) (r : GpuResource)
    → transfer_from_bytes bytes ≡ some req
    → HashMap.get d.resources req.resource_id ≡ some r
    → IsTable d
    → contains r req.rect ≡ true
    → AllHeld mem 0 r.backing
    → src_start req r.stride + (req.rect.height - 1) * r.stride + req.rect.width * bytes_per_pixel
      ≤ length (backing_bytes mem r.backing)
    → transfer_to_host b mem d bytes
      ≡ ok (
        header resp_ok_nodata,
        record d {
          resources = HashMap.insert d.resources req.resource_id (record r {
            pixels =
                blit_rows
                  (backing_bytes mem r.backing)
                  r.stride
                  (src_start req r.stride)
                  (dst_start r.stride req.rect)
                  (req.rect.width * bytes_per_pixel)
                  req.rect.height
                  0
                  r.pixels;
          });
        },
      )
unfolding transfer_to_host backing_len
transfer_to_host-eq-blit b mem d bytes req r parsed found t inside held enough =
    let g = t.good req.resource_id r found in
    let (wide, high, right, below) = contains_inside r req.rect g inside in
    let (total, small) = sum_lengths-eq-length mem 0 r.backing held (omega arith) in
    let start = src_start req r.stride in
    let len = req.rect.width * bytes_per_pixel in
    let size = length (backing_bytes mem r.backing) in
    let based = transfer_base-eq-start req r.stride (omega arith) in
    let reached : ltb (backing_len r) start ≡ false = ground (arith, total) in
    let rows =
      transfer_rows-eq-blit b mem r req.rect start held len req.rect.height 0 (replicate len 0)
        r.pixels (length-replicate len 0) (omega arith) (omega arith)
        (λ i h. (
          src_fits start r.stride len req.rect.height size i enough (omega arith),
          row_fits r req.rect i g right below (omega arith),
        )) in
    rw (transfer_to_host, parsed, found, inside, based, reached, rows) refl

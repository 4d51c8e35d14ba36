-- ===== src/Virtio/Gpu/Command/Transfer.antt =====
-- The lengths under a transfer of the GPU device (src/devices/virtio/devices/gpu.rs).
use ferrum_vm.Prelude.{
  ℕ, zero, suc, ◌+◌, ◌≡◌, ◌∙◌, Option, none, some, List, ◌++◌, length, take, drop, arith, ok,
  >>=-eq-ok, Build, length-append, length-take, length-drop,
}
use ferrum_vm.Memory.{GuestMemory}
use ferrum_vm.Virtio.Gpu.{DisplayRect}
use ferrum_vm.Virtio.Gpu.Resource.{GpuResource, copy_slice}
use ferrum_vm.Virtio.Gpu.Command.Run.{transfer_row, transfer_rows}

copy_slice-length :
    (out : List ℕ) (at n : ℕ) (bytes : List ℕ) (out' : List ℕ)
    → copy_slice out at n bytes ≡ ok out'
    → length out' ≡ length out
unfolding copy_slice
copy_slice-length out at n bytes out' h =
    let rest = drop (at + n) out in
    let whole = length-append (take at out) (bytes ++ rest) in
    let tail = length-append bytes rest in
    grind (arith, whole, tail, length-take at out, length-drop (at + n) out)

transfer_row-length :
    (b : Build) (mem : GuestMemory) (r : GpuResource) (rect : DisplayRect) (base row : ℕ)
    (row_buf pixels row_buf' pixels' : List ℕ)
    → transfer_row b mem r rect base row row_buf pixels ≡ ok (some (row_buf', pixels'))
    → length pixels' ≡ length pixels
unfolding transfer_row
transfer_row-length b mem r rect base row row_buf pixels row_buf' pixels' h =
    grind (arith, copy_slice-length)

pub transfer_rows-length :
    (b : Build) (mem : GuestMemory) (r : GpuResource) (rect : DisplayRect) (base left row : ℕ)
    (row_buf pixels pixels' : List ℕ)
    → transfer_rows b mem r rect base left row row_buf pixels ≡ ok pixels'
    → length pixels' ≡ length pixels
unfolding transfer_rows
transfer_rows-length b mem r rect base zero row row_buf pixels pixels' h = ground arith
transfer_rows-length b mem r rect base (suc left) row row_buf pixels pixels' h =
    let (o, e, h₁) = >>=-eq-ok (transfer_row b mem r rect base row row_buf pixels) _ h in
    next (λ row_buf' px. transfer_rows-length b mem r rect base left (suc row) row_buf' px pixels')
      o e h₁
  where
    next :
        ((row_buf' px : List ℕ)
          → transfer_rows b mem r rect base left (suc row) row_buf' px ≡ ok pixels'
          → length pixels' ≡ length px)
        → (o : Option (List ℕ × List ℕ)) → transfer_row b mem r rect base row row_buf pixels ≡ ok o
        → (elim o [
          | none ↦ ok pixels
          | some (row_buf', px) ↦ transfer_rows b mem r rect base left (suc row) row_buf' px
        ])
          ≡ ok pixels'
        → length pixels' ≡ length pixels
    next ih none e h₁ = ground arith
    next ih (some (row_buf', px)) e h₁ =
        ih row_buf' px h₁ ∙ transfer_row-length b mem r rect base row row_buf pixels row_buf' px e

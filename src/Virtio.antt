-- ===== src/Virtio.antt =====
-- The device side of virtio: the trait `VirtioDevice` of src/devices/virtio/virtio.rs, and the
-- devices of src/devices/virtio/devices/ that the children model.
-- A method that takes `&mut self` returns the new state. `tick` and `update` reach guest RAM through
-- the handle that `pass_guest_memory` stores, so the memory is passed in and out of them.
use ferrum_vm.Prelude.{ℕ, Bool, List, Result}
use ferrum_vm.Memory.{GuestMemory}
use ferrum_vm.Virtqueue.{VirtioQueue}
use ferrum_vm.Virtqueue.Loop.{Io}
pub mod Counter
pub mod Rng
pub mod Blk
pub mod Net
pub mod Gpu
pub mod Fs
pub mod Console
mod Examples

pub record VirtioDevice (D : Type 0) : Type 0 where
  pub virtio_type : D → ℕ
  pub features : D → ℕ
  pub negotiate_features : D → ℕ → D
  pub pass_guest_memory : D → D
  pub tick : Io D → ℕ → Result (Bool × Io D)
  pub read_config : D → ℕ → List ℕ
  pub write_config : D → ℕ → List ℕ → D
  pub update :
      D → GuestMemory → List VirtioQueue → Result (Bool × D × GuestMemory × List VirtioQueue)
  pub reset : D → D

-- ===== src/Virtqueue/Loop.antt =====
-- The loop `while let Some(head) = queue.pop_avail(mem) { .. }` of the devices of
-- src/devices/virtio/devices/, on fuel.
use ferrum_vm.Prelude.{
  ℕ, zero, suc, ◌+◌, Bool, true, false, ◌||◌, Option, none, some, Result, ok, no_fuel, ◌>>=◌, Build,
}
use ferrum_vm.Memory.{GuestMemory}
use ferrum_vm.Virtqueue.{VirtioQueue, pop_avail}
pub mod Order
pub mod Rings
pub mod Balance
pub mod Invariant

-- The queue being served, guest RAM, and the device's own state.
pub record Io (D : Type 0) : Type 0 where
  pub mem : GuestMemory
  pub queue : VirtioQueue
  pub device : D

-- The body is given a head, and says whether it set `did_work`.
unfoldable pub while_avail :
    {D : Type 0}
    → Build
    → ℕ
    → (Io D → ℕ → Result (Bool × Io D))
    → Io D
    → Bool
    → Result (Bool × Io D)
while_avail b zero body s did_work = no_fuel
while_avail b (suc fuel) body s did_work = do
  (popped, q) ← pop_avail b s.mem s.queue
  elim popped [
    | none ↦ ok (did_work, record s { queue = q })
    | some head ↦ (do
      (worked, s') ← body (record s { queue = q }) head
      while_avail b fuel body s' (did_work || worked))
  ]

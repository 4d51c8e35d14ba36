-- ===== src/Transport/Tick.antt =====
-- The tick of the device over its queues (src/devices/virtio/transports/mmio.rs).
use ferrum_vm.Prelude.{
  ℕ, ◌+◌, bit_and, bit_or, List, [], ◌∷◌, ◌==◌, ◌!=◌, if◌then◌else◌, Result, ok, ◌>>=◌, Build,
}
use ferrum_vm.Memory.{GuestMemory}
use ferrum_vm.Virtqueue.{VirtioQueue}
use ferrum_vm.Virtio.{VirtioDevice}
use ferrum_vm.Transport.{Bus, raise_edge}

module _ {D : Type 0} (b : Build) (dev : VirtioDevice D) where
  -- One round of the loop of `tick`: queue `i` is served if it is ready.
  unfoldable pub tick_queue :
      VirtioQueue → ℕ → D → GuestMemory → ℕ → Result (VirtioQueue × D × GuestMemory × ℕ)
  tick_queue q i d mem pending =
      if q.ready
      then (do
        (completions, io) ← dev.tick (record { mem = mem; queue = q; device = d }) i
        ok (io.queue, io.device, io.mem, if completions then bit_or pending 1 else pending))
      else ok (q, d, mem, pending)

  -- The loop, over the queues from index `i` on.
  unfoldable pub tick_queues :
      List VirtioQueue → ℕ → D → GuestMemory → ℕ → Result (List VirtioQueue × D × GuestMemory × ℕ)
  tick_queues [] i d mem pending = ok ([], d, mem, pending)
  tick_queues (q ∷ qs) i d mem pending = do
    (q', d₁, mem₁, pending₁) ← tick_queue q i d mem pending
    (qs', d₂, mem₂, pending₂) ← tick_queues qs (i + 1) d₁ mem₁ pending₁
    ok (q' ∷ qs', d₂, mem₂, pending₂)

  -- What `tick` does where the driver is ready.
  unfoldable pub tick_ready : Bus D → Result (Bus D)
  tick_ready s = do
    let t = s.transport
    (qs, d, mem, pending) ← tick_queues t.queues 0 t.device s.mem t.interrupt_status
    (updated, d', mem', qs') ← dev.update d mem qs
    ok (
        raise_edge (t.interrupt_status != 0) (record s {
          transport = record t {
            device = d';
            queues = qs';
            interrupt_status = if updated then bit_or pending 1 else pending;
          };
          mem = mem';
        }))

  unfoldable pub tick : Bus D → Result (Bus D)
  tick s = if bit_and s.transport.status 4 == 0 then ok s else tick_ready s

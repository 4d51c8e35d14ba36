-- ===== src/Transport/Examples.antt =====
-- Runs of the virtio-mmio transport (src/devices/virtio/transports/mmio.rs).
use ferrum_vm.Prelude.{◌≡◌, refl, true, false, [], ◌∷◌, length, arith, ok, ◌>>=◌, Returns, debug}
use ferrum_vm.Prelude.Bytes.{le_bytes}
use ferrum_vm.Irq
use ferrum_vm.Virtqueue
use ferrum_vm.Virtqueue.{VirtioQueue}
use ferrum_vm.Virtio.Counter
use ferrum_vm.Virtio.Counter.{CntVirtio}
use ferrum_vm.Virtio.{VirtioDevice}
use ferrum_vm.Transport.{Bus, new, set_irq_line, put_queue, read_u32_from_data}
use ferrum_vm.Transport.Read.{read}
use ferrum_vm.Transport.Write.{write, write_register, write_at, reset}
use ferrum_vm.Transport.Registers.{write_address}
use ferrum_vm.Transport.Access.{read-Returns}
use ferrum_vm.Transport.Line.Reach.{Machine, here, next, writes, IsInStep, Reach-IsInStep}

abbrev device : VirtioDevice CntVirtio
device = Counter.device debug 16

-- A counter device with two queues on line 5, its handles attached.
abbrev bus : Bus CntVirtio
bus = record {
  transport = record (new Counter.new 2 5) { irq_handler = true; guest_memory = true };
  irqs = Irq.new;
  mem = [];
}

read-Returns_example :
    Returns
      (read debug device bus 0x00C 4)
      (λ r. (length r.0 ≡ 4) × (r.1.transport.queues ≡ bus.transport.queues))
unfolding new
read-Returns_example =
    read-Returns debug device bus 0x00C 4 (omega arith) (omega arith) (omega arith)

write_address_example :
    ((do
      s ← write debug device bus 0x080 (le_bytes 4 0x2000)
      write debug device s 0x084 (le_bytes 4 1))
      ≡ ok (put_queue bus 0 (record Virtqueue.new { desc_addr = 0x100002000 })))
    × ((do
      s ← write debug device bus 0x090 (le_bytes 4 0x2000)
      write debug device s 0x094 (le_bytes 4 1))
        ≡ ok (put_queue bus 0 (record Virtqueue.new { avail_addr = 0x100002000 })))
    × ((do
      s ← write debug device bus 0x0A0 (le_bytes 4 0x2000)
      write debug device s 0x0A4 (le_bytes 4 1))
        ≡ ok (put_queue bus 0 (record Virtqueue.new { used_addr = 0x100002000 })))
unfolding new
write_address_example =
    write_address debug device bus Virtqueue.new 0x100002000 refl (omega arith)
      (omega arith, omega arith, omega arith)

abbrev machine : Machine CntVirtio
machine = record { line = false; bus = bus }

-- The status register is written.
abbrev reset_bus : Bus CntVirtio
reset_bus = record bus { irqs = record { commands = record { irq_line = 5; value = false } ∷ [] } }

Reach-IsInStep_example : IsInStep debug device (record machine { bus = reset_bus })
unfolding new write write_at write_register read_u32_from_data reset set_irq_line Irq.trigger_irq
Reach-IsInStep_example =
    Reach-IsInStep debug device {m = machine} (record { attached = refl; shows = refl })
      (next here (writes machine 0x070 (0 ∷ 0 ∷ 0 ∷ 0 ∷ []) reset_bus refl))

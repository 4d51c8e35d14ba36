-- ===== src/Transport.antt =====
-- The virtio-mmio transport: src/devices/virtio/transports/mmio.rs.
-- `read`, `write` and `tick` take the transport with the shared interrupt handler and guest RAM, and
-- return the three; they stand in the children of those names.
use ferrum_vm.Prelude.{
  ℕ, zero, suc, ◌+◌, ◌-◌, ◌*◌, ◌/◌, ◌%◌, ◌^◌, bit_and, bit_or, Bool, true, false, not, ◌&&◌, ◌||◌,
  Option, none, some, List, [], ◌∷◌, ◌==◌, ◌!=◌, ltb, leb, if◌then◌else◌, length, get_elem?, set,
  take, drop, replicate, map, Result, ok, panic, ◌>>=◌, unwrap, Build, add_word, u32_mod, u64_mod,
}
use ferrum_vm.Prelude.Bytes.{le_bytes, from_le}
use ferrum_vm.Memory.{GuestMemory}
use ferrum_vm.Irq.{IrqHandler, IrqCommand, trigger_irq}
use ferrum_vm.Virtqueue
use ferrum_vm.Virtqueue.{VirtioQueue}
use ferrum_vm.Virtqueue.Loop.{Io}
use ferrum_vm.Virtio.{VirtioDevice}
pub mod Read
pub mod Write
pub mod Tick
pub mod Line
pub mod Registers
pub mod Access
mod Examples

abbrev pub magic_number : ℕ
magic_number = 0x74726976

abbrev pub version : ℕ
version = 2

abbrev pub vendor_id : ℕ
vendor_id = 0x56484B53

abbrev pub queue_num_max : ℕ
queue_num_max = 256

abbrev pub virtio_f_version_1 : ℕ
virtio_f_version_1 = 2 ^ 32

-- The copy into a `[u8; 4]` panics where the data are longer; shorter data leave zeros.
unfoldable pub read_u32_from_data : List ℕ → Result ℕ
read_u32_from_data bytes = if leb (length bytes) 4 then ok (from_le bytes) else panic

-- `bytes[from..from + len]`.
unfoldable pub slice : List ℕ → ℕ → ℕ → Result (List ℕ)
slice bytes from len =
    if leb (from + len) (length bytes) then ok (take len (drop from bytes)) else panic

pub record MmioTransport (D : Type 0) : Type 0 where
  pub device : D
  pub queues : List VirtioQueue
  pub queue_sel : ℕ
  pub status : ℕ
  pub interrupt_status : ℕ
  pub device_features_sel : ℕ
  pub driver_features_sel : ℕ
  pub driver_features : ℕ
  pub shm_sel : ℕ
  pub irq_handler : Bool  -- whether a handler is attached
  pub irq_sel : ℕ
  pub guest_memory : Bool  -- whether a handle was passed

-- The transport with what it shares.
pub record Bus (D : Type 0) : Type 0 where
  pub transport : MmioTransport D
  pub irqs : IrqHandler
  pub mem : GuestMemory

unfoldable pub new : {D : Type 0} → D → ℕ → ℕ → MmioTransport D
new device queue_num irq_sel = record {
  device = device;
  queues = replicate queue_num Virtqueue.new;
  queue_sel = 0;
  status = 0;
  interrupt_status = 0;
  device_features_sel = 0;
  driver_features_sel = 0;
  driver_features = 0;
  shm_sel = 0;
  irq_handler = false;
  irq_sel = irq_sel;
  guest_memory = false;
}

-- The high half of a 64-bit word kept and its low half replaced, and the other way round.
unfoldable pub set_low : ℕ → ℕ → ℕ
set_low x val = bit_or (bit_and x 0xFFFFFFFF00000000) val

unfoldable pub set_high : ℕ → ℕ → ℕ
set_high x val = bit_or (bit_and x 0xFFFFFFFF) ((val * 2 ^ 32) % u64_mod)

-- `status &= !ack` on `u32`.
unfoldable pub clear_bits : ℕ → ℕ → ℕ
clear_bits status ack = bit_and status (u32_mod - 1 - ack)

module _ {D : Type 0} where
  unfoldable pub set_irq_line : Bus D → Bool → Bus D
  set_irq_line s value =
      if s.transport.irq_handler
      then record s {
        irqs = trigger_irq s.irqs (record { irq_line = s.transport.irq_sel; value = value });
      }
      else s

  -- `self.queues[self.queue_sel]`, read and replaced.
  abbrev pub selected : Bus D → Result VirtioQueue
  selected s = unwrap (get_elem? s.transport.queues s.transport.queue_sel)

  abbrev pub put_queue : Bus D → ℕ → VirtioQueue → Bus D
  put_queue s i q = record s {
    transport = record s.transport { queues = set s.transport.queues i q };
  }

  unfoldable pub update_selected : Bus D → (VirtioQueue → VirtioQueue) → Result (Bus D)
  update_selected s f = do q ← selected s; ok (put_queue s s.transport.queue_sel (f q))

  -- Work done raises the interrupt.
  unfoldable pub mark_served : Bool → Bus D → Bus D
  mark_served did_work s =
      let pending = record s {
        transport = record s.transport { interrupt_status = bit_or s.transport.interrupt_status 1 };
      } in
      if did_work then set_irq_line pending true else s

  -- An acknowledgement that leaves nothing pending lowers the line.
  unfoldable pub lower_idle : Bus D → Bus D
  lower_idle s = if s.transport.interrupt_status == 0 then set_irq_line s false else s

  -- The end of `tick`: the line is raised where an interrupt has become pending.
  unfoldable pub raise_edge : Bool → Bus D → Bus D
  raise_edge was_pending s =
      if s.transport.interrupt_status != 0 && not was_pending then set_irq_line s true else s

  -- `irq_handler` and `pass_guest_memory`.
  unfoldable pub attach_irq : Bus D → Bus D
  attach_irq s = record s { transport = record s.transport { irq_handler = true } }

module _ {D : Type 0} (b : Build) (dev : VirtioDevice D) where
  unfoldable pub pass_guest_memory : Bus D → Bus D
  pass_guest_memory s = record s {
    transport = record s.transport {
      guest_memory = true;
      device = dev.pass_guest_memory s.transport.device;
    };
  }

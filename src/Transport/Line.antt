-- ===== src/Transport/Line.antt =====
-- The interrupt line of the virtio-mmio transport (src/devices/virtio/transports/mmio.rs).
use ferrum_vm.Prelude.{
  ℕ, ◌+◌, ◌-◌, ◌≡◌, ◌≢◌, refl, bit_and, bit_or, Bool, true, false, not, ◌&&◌, List, [], ◌∷◌, ◌++◌,
  max, ◌%◌, ◌/◌, ◌<◌, ◌==◌, ◌!=◌, if◌then◌else◌, arith, Result, ok, Build, leb, ==_refl, Bool-cases,
  inl, inr, some, none, get_elem?, ◌>>=◌, panic, no_fuel, sym, Option-cases, >>=-eq-ok, set, subst,
  map, u32_mod, ◌∙◌,
}
use ferrum_vm.Prelude.Bits.{bit_or_low, zero-bit_and}
use ferrum_vm.Memory.{GuestMemory}
use ferrum_vm.Prelude.Bytes.{le_bytes}
use ferrum_vm.Irq.{IrqHandler, IrqCommand, trigger_irq, handle_irqs}
use ferrum_vm.Virtqueue
use ferrum_vm.Virtqueue.{VirtioQueue}
use ferrum_vm.Virtio.{VirtioDevice}
use ferrum_vm.Transport.{
  Bus, MmioTransport, set_irq_line, update_selected, slice, clear_bits, read_u32_from_data,
  mark_served, lower_idle, raise_edge,
}
use ferrum_vm.Transport.Write.{Register, write_at, write_register, write, reset, notify}
use ferrum_vm.Transport.Read.{read_register, read}
use ferrum_vm.Transport.Tick.{tick, tick_queue, tick_queues, tick_ready}
pub mod Preserve
pub mod Reach

-- The level of a line after some commands, from its level before them.
abbrev pub level : Bool → ℕ → List IrqCommand → Bool
level before line [] = before
level before line (c ∷ cs) = level (if c.irq_line == line then c.value else before) line cs

level-append :
    (before : Bool) (line : ℕ) (cs : List IrqCommand) (c : IrqCommand)
    → level before line (cs ++ (c ∷ []))
      ≡ (if c.irq_line == line then c.value else level before line cs)
level-append before line [] c = refl
level-append before line (c' ∷ cs) c =
    level-append (if c'.irq_line == line then c'.value else before) line cs c

pub level-trigger_irq :
    (before : Bool) (line : ℕ) (h : IrqHandler) (c : IrqCommand)
    → level before line (trigger_irq h c).commands
      ≡ (if c.irq_line == line then c.value else level before line h.commands)
unfolding trigger_irq
level-trigger_irq before line h c = level-append before line h.commands c

pub or_one_pending : (x : ℕ) → (bit_or x 1 != 0) ≡ true
or_one_pending x = ground (arith, bit_or_low x 1)

module _ {D : Type 0} where
  -- The level that the queued commands leave the line at.
  abbrev pub line_level : Bool → Bus D → Bool
  line_level before s = level before s.transport.irq_sel s.irqs.commands

  -- The handler is attached, and the line is high exactly while an interrupt is pending.
  pub record LineShows (before : Bool) (s : Bus D) : Type 0 where
    pub attached : s.transport.irq_handler ≡ true
    pub shows : line_level before s ≡ (s.transport.interrupt_status != 0)

  -- The line is set to whether an interrupt is pending.
  pub set-LineShows :
      (before : Bool) (s : Bus D) (value : Bool)
      → s.transport.irq_handler ≡ true
      → value ≡ (s.transport.interrupt_status != 0)
      → LineShows before (set_irq_line s value)
  unfolding set_irq_line
  set-LineShows before s value on e = ground (
    arith,
    ==_refl s.transport.irq_sel,
    level-trigger_irq before s.transport.irq_sel s.irqs
        (record { irq_line = s.transport.irq_sel; value = value }),
  )

  pub transport-set_irq_line :
      (s : Bus D) (value : Bool) → (set_irq_line s value).transport ≡ s.transport
  unfolding set_irq_line
  transport-set_irq_line s value = ground arith

  pub mark_served-LineShows :
      (before did : Bool) (s : Bus D) → LineShows before s → LineShows before (mark_served did s)
  unfolding mark_served
  mark_served-LineShows before false s l = l
  mark_served-LineShows before true s l =
      let or_one = or_one_pending s.transport.interrupt_status in
      set-LineShows before _ true l.attached (sym or_one)

  pub lower_idle-LineShows :
      (before : Bool) (s : Bus D) (pending : ℕ)
      → s.transport.irq_handler ≡ true
      → line_level before s ≡ (pending != 0)
      → (pending ≡ 0 → s.transport.interrupt_status ≡ 0)
      → LineShows before (lower_idle s)
  unfolding lower_idle
  lower_idle-LineShows before s pending on e idle =
      elim (Bool-cases (s.transport.interrupt_status == 0)) [
        | inl z ↦ rw z (set-LineShows before s false on (ground arith))
        | inr p ↦ rw p (record { attached = on; shows = ground arith })
      ]

  pub raise_edge-LineShows :
      (before : Bool) (s : Bus D) (pending : ℕ)
      → s.transport.irq_handler ≡ true
      → line_level before s ≡ (pending != 0)
      → (s.transport.interrupt_status ≡ 0 → pending ≡ 0)
      → LineShows before (raise_edge (pending != 0) s)
  unfolding raise_edge
  raise_edge-LineShows before s pending on e idle =
      elim (Bool-cases (s.transport.interrupt_status != 0 && not (pending != 0))) [
        | inl z ↦ rw z (set-LineShows before s true on (ground arith))
        | inr p ↦ rw p (record { attached = on; shows = ground arith })
      ]

pub clear_none : (x ack : ℕ) → x ≡ 0 → clear_bits x ack ≡ 0
unfolding clear_bits
clear_none x ack e = rw e (zero-bit_and (u32_mod - 1 - ack))

-- ===== src/Irq.antt =====
-- Interrupt requests: src/irq/handler.rs and src/irq/map.rs.
-- The shared `Arc<Mutex<IRQHandler>>` is passed in and out of whatever raises a line.
use ferrum_vm.Prelude.{ℕ, Bool, true, false, List, [], ◌∷◌, ◌++◌, map, ◌==◌, if◌then◌else◌}
pub mod Queue
mod Examples

pub record IrqCommand : Type 0 where
  pub irq_line : ℕ
  pub value : Bool

-- `VecDeque`, front first.
pub record IrqHandler : Type 0 where
  pub commands : List IrqCommand

abbrev pub new : IrqHandler
new = record { commands = [] }

unfoldable pub trigger_irq : IrqHandler → IrqCommand → IrqHandler
trigger_irq h irq = record { commands = h.commands ++ (irq ∷ []) }

-- `std::mem::take`: the queued commands, and the emptied handler.
unfoldable pub handle_irqs : IrqHandler → List IrqCommand × IrqHandler
handle_irqs h = (h.commands, new)

pub record IrqMap : Type 0 where
  pub gsi : ℕ
  pub irq_pin : ℕ
  pub irq_chip : ℕ

abbrev pub irq_map : ℕ → ℕ → ℕ → IrqMap
irq_map gsi pin chip = record { gsi = gsi; irq_pin = pin; irq_chip = chip }

-- The routes written out in `default_map`.
abbrev pub pic_routes : List IrqMap
pic_routes =
    irq_map 0 0 0
    ∷ irq_map 1 1 0
    ∷ irq_map 3 3 0
    ∷ irq_map 4 4 0
    ∷ irq_map 5 5 0
    ∷ irq_map 6 6 0
    ∷ irq_map 7 7 0
    ∷ irq_map 9 0 1
    ∷ irq_map 10 1 1
    ∷ []

-- The loop of `default_map`: each route of the list gets an IOAPIC route after them.
unfoldable pub push_ioapic : List IrqMap → List IrqMap → List IrqMap
push_ioapic acc [] = acc
push_ioapic acc (m ∷ ms) = push_ioapic (acc ++ (irq_map m.gsi m.gsi 2 ∷ [])) ms

unfoldable pub default_map : List IrqMap
unfolding push_ioapic
default_map = push_ioapic pic_routes pic_routes

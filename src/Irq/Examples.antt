-- ===== src/Irq/Examples.antt =====
-- Runs of the interrupt queue (src/irq/handler.rs, src/irq/map.rs).
use ferrum_vm.Prelude.{◌≡◌, refl, true, false, [], ◌∷◌}
use ferrum_vm.Irq.{IrqCommand, new, trigger_irq, handle_irqs}

abbrev raise : IrqCommand
raise = record { irq_line = 4; value = true }

abbrev lower : IrqCommand
lower = record { irq_line = 4; value = false }

in_order : handle_irqs (trigger_irq (trigger_irq new raise) lower) ≡ (raise ∷ lower ∷ [], new)
unfolding handle_irqs trigger_irq
in_order = refl

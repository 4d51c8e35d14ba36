-- ===== src/Irq/Queue.antt =====
-- The queue of interrupt requests (src/irq/handler.rs), and the map of the routes (src/irq/map.rs).
use ferrum_vm.Prelude.{◌≡◌, ap, sym, ◌∙◌, List, [], ◌∷◌, ◌++◌, map, append-nil, append_assoc}
use ferrum_vm.Irq.{
  IrqHandler, IrqCommand, IrqMap, new, irq_map, trigger_irq, handle_irqs, push_ioapic,
}

-- Requests raised one after the other.
unfoldable pub trigger_all : IrqHandler → List IrqCommand → IrqHandler
trigger_all h [] = h
trigger_all h (c ∷ cs) = trigger_all (trigger_irq h c) cs

commands-trigger_all :
    (h : IrqHandler) (cs : List IrqCommand) → (trigger_all h cs).commands ≡ h.commands ++ cs
unfolding trigger_all trigger_irq
commands-trigger_all h [] = sym (append-nil h.commands)
commands-trigger_all h (c ∷ cs) =
    commands-trigger_all (trigger_irq h c) cs ∙ append_assoc h.commands (c ∷ []) cs

-- The tick thread gets every request that was raised since it last looked, each once and in the order
-- they were raised, behind those queued before, and leaves the queue empty.
handle_irqs-trigger_all :
    (h : IrqHandler) (cs : List IrqCommand)
    → handle_irqs (trigger_all h cs) ≡ (h.commands ++ cs, new)
unfolding handle_irqs
handle_irqs-trigger_all h cs = ap (λ commands. (commands, new)) (commands-trigger_all h cs)

-- The route of an interrupt at the IOAPIC: the pin has the number of the interrupt.
abbrev pub ioapic_route : IrqMap → IrqMap
ioapic_route m = irq_map m.gsi m.gsi 2

-- The loop of the default map keeps the routes that are there and adds, behind them and in their
-- order, one IOAPIC route for each route of the list, its pin the interrupt's number.
push_ioapic-eq : (acc ms : List IrqMap) → push_ioapic acc ms ≡ acc ++ map ioapic_route ms
unfolding push_ioapic
push_ioapic-eq acc [] = sym (append-nil acc)
push_ioapic-eq acc (m ∷ ms) =
    push_ioapic-eq (acc ++ (ioapic_route m ∷ [])) ms
    ∙ append_assoc acc (ioapic_route m ∷ []) (map ioapic_route ms)

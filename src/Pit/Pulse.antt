-- ===== src/Pit/Pulse.antt =====
-- The interrupt requests of a tick of the interval timer (src/devices/timer.rs).
use ferrum_vm.Prelude.{
  ℕ, zero, suc, ◌-◌, ◌<◌, ◌≡◌, refl, ap, ◌∙◌, true, false, not, ◌||◌, List, [], ◌∷◌, ◌++◌,
  append_assoc, append-nil, arith, ok,
}
use ferrum_vm.Irq.{IrqCommand, IrqHandler, trigger_irq}
use ferrum_vm.Pit.{Float, Pit, command, pulses, tick}

-- `n` times up and down.
abbrev pub pairs : ℕ → ℕ → List IrqCommand
pairs irq_line zero = []
pairs irq_line (suc n) =
    record { irq_line = irq_line; value = true }
    ∷ record { irq_line = irq_line; value = false }
    ∷ pairs irq_line n

module _ {X : Type 0} (f : Float X) where
  -- `n` whole periods are in an amount, and what is left is less than one.
  pub data Holds (period : X) : ℕ → X → X → Type 0 where
    under : (a : X) → f.at_least a period ≡ false → Holds period 0 a a
    over :
        (n : ℕ) (a rest : X)
        → f.at_least a period ≡ true
        → Holds period n (f.minus a period) rest
        → Holds period (suc n) a rest

  pulses-Holds :
      (fuel n : ℕ) (rest : X) (p : Pit X) (h : IrqHandler)
      → Holds p.period_ns n p.acc_ns rest
      → n < fuel
      → pulses f fuel p h
        ≡ ok (record p { acc_ns = rest }, record { commands = h.commands ++ pairs p.irq_line n })
  unfolding pulses trigger_irq
  pulses-Holds zero n rest p h w few = elim few [ ]
  pulses-Holds (suc fuel) _ _ p h (under _ e) few = rw (pulses, e, append-nil h.commands) refl
  pulses-Holds (suc fuel) _ _ p h (over n _ rest e w) few =
      rw (pulses, e)
        (pulses-Holds fuel n rest (record p { acc_ns = f.minus p.acc_ns p.period_ns })
            (trigger_irq (trigger_irq h (command f p.irq_line true)) (command f p.irq_line false)) w
            (omega arith)
          ∙ ap (λ cs. ok (record p { acc_ns = rest }, record { commands = cs }))
              (more h.commands n))
    where
      more :
          (cs : List IrqCommand) (n : ℕ)
          → (((cs ++ (command f p.irq_line true ∷ [])) ++ (command f p.irq_line false ∷ []))
              ++ pairs p.irq_line n)
            ≡ cs ++ pairs p.irq_line (suc n)
      more cs n =
          append_assoc (cs ++ (command f p.irq_line true ∷ [])) (command f p.irq_line false ∷ [])
            (pairs p.irq_line n)
          ∙ append_assoc cs (command f p.irq_line true ∷ [])
              (command f p.irq_line false ∷ pairs p.irq_line n)

  -- A tick of an attached timer that has been programmed with a period other than 0, at a time when the
  -- amount it carries and the time since the last tick make `n` whole periods, ends within `n + 1`
  -- rounds: it raises and lowers its line `n` times, in turns and behind what was queued, and carries
  -- the rest over.
  pub tick-pairs :
      (fuel now n : ℕ) (rest : X) (p : Pit X) (h : IrqHandler)
      → p.irq_handler ≡ true
      → p.programmed ≡ true
      → f.is_zero p.period_ns ≡ false
      → Holds p.period_ns n (f.plus p.acc_ns (f.of_nanos (now - p.last_tick))) rest
      → n < fuel
      → tick f fuel now p h
        ≡ ok (
          record p { acc_ns = rest; last_tick = now },
          record { commands = h.commands ++ pairs p.irq_line n },
        )
  unfolding tick
  tick-pairs fuel now n rest p h attached ready some_period w few =
      let works : (not p.irq_handler || (f.is_zero p.period_ns || not p.programmed)) ≡ false =
        ground (arith, attached, ready, some_period) in
      rw (tick, works)
        (pulses-Holds fuel n rest
          (record p { acc_ns = f.plus p.acc_ns (f.of_nanos (now - p.last_tick)); last_tick = now })
          h w few)

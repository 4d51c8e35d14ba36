-- ===== src/Serial/Reach.antt =====
-- The interrupt line of the serial port over any run: accesses of the guest, ticks, the keyboard thread
-- and the other devices (src/devices/serial.rs, src/vm/tick.rs).
use ferrum_vm.Prelude.{ℕ, ◌≡◌, ◌≢◌, Bool, List, ok, arith, >>=-eq-ok, unwrap, get_elem?, subst}
use ferrum_vm.Irq.{IrqCommand, trigger_irq, handle_irqs}
use ferrum_vm.Transport.Line.{level, level-trigger_irq}
use ferrum_vm.Serial.{Port, tick, input, output, output_val}
use ferrum_vm.Serial.Line.{LineShows, input-LineShows, output_val-LineShows, tick-LineShows}

-- The level of line 4 as the interrupt controller has it, and the port.
pub record Machine : Type 0 where
  pub line : Bool
  pub port : Port

module _ (file_write : List ℕ → List ℕ → List ℕ) where
  pub data Step : Machine → Machine → Type 0 where
    inputs :
        (m : Machine) (port length : ℕ)
        → Step m (record m { port = (input file_write m.port port length).1 })
    outputs :
        (m : Machine) (port : ℕ) (bytes : List ℕ) (p : Port)
        → output file_write m.port port bytes ≡ ok p
        → Step m (record m { port = p })
    ticks : (m : Machine) → Step m (record m { port = tick m.port })
    -- The keyboard thread changes the shared queue.
    types :
        (m : Machine) (queue : List ℕ)
        → Step m
            (record m { port = record m.port { serial = record m.port.serial { queue = queue } } })
    -- The tick thread hands the queued commands to the interrupt controller.
    delivers :
        (m : Machine)
        → Step m (record m {
          line = level m.line 4 m.port.irqs.commands;
          port = record m.port { irqs = (handle_irqs m.port.irqs).1 };
        })
    -- A device on another line raises or lowers it.
    others :
        (m : Machine) (c : IrqCommand)
        → c.irq_line ≢ 4
        → Step m (record m { port = record m.port { irqs = trigger_irq m.port.irqs c } })

  pub data Reach (m : Machine) : Machine → Type 0 where
    here : Reach m m
    next : {n k : Machine} → Reach m n → Step n k → Reach m k

  abbrev pub IsShown : Machine → Type 0
  IsShown m = LineShows m.line m.port

  Step-IsShown : {m n : Machine} → Step m n → IsShown m → IsShown n
  unfolding handle_irqs output
  Step-IsShown (inputs m port length) l = input-LineShows m.line file_write m.port port length l
  Step-IsShown (outputs m port bytes p e) l =
      let (val, _, e') = >>=-eq-ok (unwrap (get_elem? bytes 0)) _ e in
      let kept = output_val-LineShows m.line file_write m.port port val bytes l in
      let same : output_val file_write m.port port val bytes ≡ p = cc in
      subst (LineShows m.line) same kept
  Step-IsShown (ticks m) l = tick-LineShows m.line m.port l
  Step-IsShown (types m queue) l = record { attached = l.attached; shows = l.shows }
  Step-IsShown (delivers m) l = record { attached = l.attached; shows = l.shows }
  Step-IsShown (others m c ne) l = ground (arith, level-trigger_irq m.line 4 m.port.irqs c)

  -- In every state that is reachable from one with the handler attached and line 4 at the pending bit
  -- of the identification register, line 4 is high exactly while that bit shows a pending interrupt:
  -- after every port access, tick, key, delivery and command of another line, in any order.
  pub Reach-IsShown : {m n : Machine} → IsShown m → Reach m n → IsShown n
  Reach-IsShown l here = l
  Reach-IsShown l (next r st) = Step-IsShown st (Reach-IsShown l r)

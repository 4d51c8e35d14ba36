-- ===== src/Transport/Line/Reach.antt =====
-- The interrupt line of a virtio-mmio transport over any run of the machine: accesses by the vCPUs
-- and the tick thread (src/vm/run.rs, src/vm/tick.rs) in any order, and the other devices.
use ferrum_vm.Prelude.{ℕ, ◌≡◌, ◌≢◌, Bool, List, ok, Build, arith}
use ferrum_vm.Memory.{GuestMemory}
use ferrum_vm.Irq.{IrqCommand, trigger_irq, handle_irqs}
use ferrum_vm.Virtio.{VirtioDevice}
use ferrum_vm.Transport.{Bus}
use ferrum_vm.Transport.Read.{read}
use ferrum_vm.Transport.Write.{write}
use ferrum_vm.Transport.Tick.{tick}
use ferrum_vm.Transport.Line.{LineShows, line_level, level-trigger_irq}
use ferrum_vm.Transport.Line.Preserve.{read-LineShows, write-LineShows, tick-LineShows}

-- The level of the line as the interrupt controller has it, and the bus.
pub record Machine (D : Type 0) : Type 0 where
  pub line : Bool
  pub bus : Bus D

module _ {D : Type 0} (b : Build) (dev : VirtioDevice D) where
  pub data Step : Machine D → Machine D → Type 0 where
    reads :
        (m : Machine D) (addr len : ℕ) (bytes : List ℕ) (s : Bus D)
        → read b dev m.bus addr len ≡ ok (bytes, s)
        → Step m (record m { bus = s })
    writes :
        (m : Machine D) (addr : ℕ) (bytes : List ℕ) (s : Bus D)
        → write b dev m.bus addr bytes ≡ ok s
        → Step m (record m { bus = s })
    ticks : (m : Machine D) (s : Bus D) → tick b dev m.bus ≡ ok s → Step m (record m { bus = s })
    -- The tick thread hands the queued commands to the interrupt controller.
    delivers :
        (m : Machine D)
        → Step m (record m {
          line = line_level m.line m.bus;
          bus = record m.bus { irqs = (handle_irqs m.bus.irqs).1 };
        })
    -- A device on another line raises or lowers it.
    others :
        (m : Machine D) (c : IrqCommand)
        → c.irq_line ≢ m.bus.transport.irq_sel
        → Step m (record m { bus = record m.bus { irqs = trigger_irq m.bus.irqs c } })
    -- The guest, or a device, writes to RAM.
    stores :
        (m : Machine D) (mem : GuestMemory) → Step m (record m { bus = record m.bus { mem = mem } })

  pub data Reach (m : Machine D) : Machine D → Type 0 where
    here : Reach m m
    next : {n k : Machine D} → Reach m n → Step n k → Reach m k

  abbrev pub IsInStep : Machine D → Type 0
  IsInStep m = LineShows m.line m.bus

  Step-IsInStep : {m n : Machine D} → Step m n → IsInStep m → IsInStep n
  unfolding handle_irqs
  Step-IsInStep (reads m addr len bytes s e) l =
      read-LineShows b dev m.line m.bus addr len bytes s l e
  Step-IsInStep (writes m addr bytes s e) l = write-LineShows b dev m.line m.bus addr bytes s l e
  Step-IsInStep (ticks m s e) l = tick-LineShows b dev m.line m.bus s l e
  Step-IsInStep (delivers m) l = record { attached = l.attached; shows = l.shows }
  Step-IsInStep (others m c ne) l =
      ground (arith, level-trigger_irq m.line m.bus.transport.irq_sel m.bus.irqs c)
  Step-IsInStep (stores m mem) l = record { attached = l.attached; shows = l.shows }

  -- In every state that a machine can reach from one with the handler attached and the line at the
  -- interrupt status, the line is high exactly while the transport has an interrupt pending: after
  -- every register access, tick, delivery, command of another line and write to RAM that returns, in
  -- any order, for any device and in both builds.
  pub Reach-IsInStep : {m n : Machine D} → IsInStep m → Reach m n → IsInStep n
  Reach-IsInStep l here = l
  Reach-IsInStep l (next r st) = Step-IsInStep st (Reach-IsInStep l r)

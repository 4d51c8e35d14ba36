-- ===== src/Serial/Examples.antt =====
-- Runs of the serial port (src/devices/serial.rs).
use ferrum_vm.Prelude.{ℕ, refl, true, false, List, [], ◌∷◌, ◌++◌}
use ferrum_vm.Irq
use ferrum_vm.Irq.{IrqHandler}
use ferrum_vm.Serial
use ferrum_vm.Serial.{Serial, Port, terminal, tick, input, output, output_val}
use ferrum_vm.Serial.Reach.{Machine, here, next, ticks, outputs, IsShown, Reach-IsShown}

abbrev appended : List ℕ → List ℕ → List ℕ
appended content bytes = content ++ bytes

abbrev port : Port
port = record {
  serial = record (Serial.new (terminal [])) {
    irq_handler = true;
    queue = 0x62 ∷ 0x61 ∷ [];
    received = 0x30 ∷ [];
  };
  irqs = Irq.new;
}

abbrev machine : Machine
machine = record { line = false; port = port }

-- The guest enables the interrupt of received data, and the tick thread looks at the queue.
abbrev enabled : Machine
enabled = record machine { port = output_val appended port 1 1 (1 ∷ []) }

Reach-IsShown_example : IsShown appended (record enabled { port = tick enabled.port })
unfolding output Serial.new
Reach-IsShown_example =
    Reach-IsShown appended {m = machine} (record { attached = refl; shows = refl })
      (next (next here (outputs machine 1 (1 ∷ []) enabled.port refl)) (ticks enabled))

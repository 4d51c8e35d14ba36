-- ===== src/Pit/Examples.antt =====
-- Runs of the interval timer (src/devices/timer.rs).
use ferrum_vm.Prelude.{ℕ, ◌+◌, ◌-◌, ◌*◌, ◌≡◌, refl, true, false, [], ◌++◌, leb, ◌==◌, arith, ok}
use ferrum_vm.Pit.{Float, Pit, tick}
use ferrum_vm.Pit.Pulse.{under, over, pairs, tick-pairs}

-- Whole nanoseconds, a period of 1000 for each step of the divisor.
abbrev whole : Float ℕ
whole = record {
  zero_ns = 0;
  period = λ d. d * 1000;
  of_nanos = λ n. n;
  plus = λ x y. x + y;
  minus = λ x y. x - y;
  at_least = λ x y. leb y x;
  is_zero = λ x. x == 0;
}

abbrev fresh : Pit ℕ
fresh = record {
  irq_handler = true;
  irq_line = 0;
  access_mode = 3;
  op_mode = 3;
  divisor = 65536;
  latch_lo = true;
  acc_ns = 0;
  period_ns = 65536000;
  last_tick = 0;
  programmed = false;
}

abbrev running : Pit ℕ
running = record fresh { op_mode = 2; divisor = 1000; period_ns = 1000000; programmed = true }

-- Two and a half periods after the last tick.
tick-pairs_example :
    tick whole 3 2500000 running (record { commands = [] })
    ≡ ok (
      record running { acc_ns = 500000; last_tick = 2500000 },
      record { commands = [] ++ pairs 0 2 },
    )
tick-pairs_example =
    tick-pairs whole 3 2500000 2 500000 running (record { commands = [] }) refl refl refl
      (over 1 2500000 500000 refl (over 0 1500000 500000 refl (under 500000 refl))) (omega arith)

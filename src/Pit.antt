-- ===== src/Pit.antt =====
-- The programmable interval timer: src/devices/timer.rs. The shared interrupt handler is passed in and out;
-- the time is an argument.
use ferrum_vm.Prelude.{
  ℕ, zero, suc, ◌+◌, ◌-◌, ◌*◌, ◌/◌, ◌%◌, bit_or, Bool, true, false, not, ◌||◌, Option, none, some,
  List, [], ◌∷◌, replicate, get_elem?, ◌==◌, ◌!=◌, if◌then◌else◌, Result, ok, panic, no_fuel, ◌>>=◌,
  unwrap,
}
use ferrum_vm.Irq.{IrqCommand, IrqHandler, trigger_irq}
pub mod Program
pub mod Pulse
mod Examples

-- What the timer uses of `f64`: the period of a divisor is `divisor / PIT_BASE_HZ * 1_000_000_000`.
pub record Float (X : Type 0) : Type 0 where
  pub zero_ns : X
  pub period : ℕ → X
  pub of_nanos : ℕ → X
  pub plus : X → X → X
  pub minus : X → X → X
  pub at_least : X → X → Bool
  pub is_zero : X → Bool

pub record Pit (X : Type 0) : Type 0 where
  pub irq_handler : Bool  -- whether a handler is attached
  pub irq_line : ℕ
  pub access_mode : ℕ
  pub op_mode : ℕ
  pub divisor : ℕ
  pub latch_lo : Bool
  pub acc_ns : X
  pub period_ns : X
  pub last_tick : ℕ  -- nanoseconds
  pub programmed : Bool

module _ {X : Type 0} (f : Float X) where
  unfoldable pub period_ns : ℕ → X
  period_ns divisor = f.period (if divisor == 0 then 65536 else divisor)

  unfoldable pub new : ℕ → Pit X
  new now = record {
    irq_handler = false;
    irq_line = 0;
    access_mode = 3;
    op_mode = 3;
    divisor = 65536;
    latch_lo = true;
    acc_ns = f.zero_ns;
    period_ns = period_ns 65536;
    last_tick = now;
    programmed = false;
  }

  -- A divisor that is complete: the period, and the mark.
  unfoldable pub program : Pit X → ℕ → Pit X
  program p divisor = record p {
    divisor = divisor;
    period_ns = period_ns divisor;
    programmed = true;
  }

  -- A byte for the divisor, as the access mode has it.
  unfoldable pub write_divisor : Pit X → ℕ → Pit X
  write_divisor p val =
      if p.access_mode == 1
      then program p val
      else if p.access_mode == 2
      then program p (val * 256)
      else if p.access_mode == 3
      then if p.latch_lo
        then record p { divisor = val; latch_lo = false }
        else program (record p { latch_lo = true }) (bit_or p.divisor (val * 256))
      else p

  -- The mode register.
  unfoldable pub write_mode : Pit X → ℕ → Pit X
  write_mode p val = if val / 64 % 4 != 0 then p else record p {
    access_mode = val / 16 % 4;
    op_mode = val / 2 % 8;
    latch_lo = true;
    divisor = 0;
  }

  unfoldable pub output : Pit X → ℕ → List ℕ → Result (Pit X)
  output p port bytes = do
    val ← unwrap (get_elem? bytes 0)
    ok (if port == 3 then write_mode p val else if port == 0 then write_divisor p val else p)

  unfoldable pub input : Pit X → ℕ → ℕ → List ℕ
  input p port len = replicate len 0

  unfoldable pub attach_irq : Pit X → Pit X
  attach_irq p = record p { irq_handler = true }

  abbrev pub command : ℕ → Bool → IrqCommand
  command irq_line value = record { irq_line = irq_line; value = value }

  -- The loop of `tick`.
  unfoldable pub pulses : ℕ → Pit X → IrqHandler → Result (Pit X × IrqHandler)
  pulses zero p h = no_fuel
  pulses (suc fuel) p h = elim (f.at_least p.acc_ns p.period_ns) [
    | false ↦ ok (p, h)
    | true ↦
        pulses fuel (record p { acc_ns = f.minus p.acc_ns p.period_ns })
          (trigger_irq (trigger_irq h (command p.irq_line true)) (command p.irq_line false))
  ]

  unfoldable pub tick : ℕ → ℕ → Pit X → IrqHandler → Result (Pit X × IrqHandler)
  tick fuel now p h =
      if not p.irq_handler || (f.is_zero p.period_ns || not p.programmed)
      then ok (p, h)
      else pulses fuel
          (record p { acc_ns = f.plus p.acc_ns (f.of_nanos (now - p.last_tick)); last_tick = now })
          h

-- ===== src/Pit/Program.antt =====
-- How a guest programs the divisor of the interval timer (src/devices/timer.rs).
use ferrum_vm.Prelude.{
  ℕ, ◌+◌, ◌*◌, ◌/◌, ◌%◌, ◌<◌, ◌≡◌, refl, bit_or, true, false, [], ◌∷◌, ◌!=◌, arith, ok, ◌>>=◌,
}
use ferrum_vm.Prelude.Bits.{bit_or_fields, zero-bit_or, bit_or-zero}
use ferrum_vm.Pit.{Float, Pit, period_ns, program, write_divisor, write_mode, output}

-- The bits of a low and a high byte are those of the 16-bit number.
bytes_joined : (lo hi : ℕ) → lo < 256 → bit_or lo (hi * 256) ≡ hi * 256 + lo
bytes_joined lo hi h = ground (arith, bit_or_fields 8 0 hi lo 0, zero-bit_or hi, bit_or-zero lo)

-- Whatever was programmed before: the mode byte of channel 0 for a low and a high byte, with any
-- operating mode, and then the two bytes leave the timer programmed with the 16-bit divisor and its
-- period, waiting for a low byte, and nothing else changed.
output-divisor :
    {X : Type 0} (f : Float X) (p : Pit X) (op lo hi : ℕ)
    → op < 8
    → lo < 256
    → (do
      p₁ ← output f p 3 ((0x30 + op * 2) ∷ [])
      p₂ ← output f p₁ 0 (lo ∷ [])
      output f p₂ 0 (hi ∷ []))
      ≡ ok (record p {
        access_mode = 3;
        op_mode = op;
        divisor = hi * 256 + lo;
        latch_lo = true;
        period_ns = period_ns f (hi * 256 + lo);
        programmed = true;
      })
unfolding output write_mode write_divisor program
output-divisor f p op lo hi small low =
    let channel : ((0x30 + op * 2) / 64 % 4 != 0) ≡ false = ground (arith, small) in
    let mode : (0x30 + op * 2) / 16 % 4 ≡ 3 = omega arith in
    let kind : (0x30 + op * 2) / 2 % 8 ≡ op = omega arith in
    rw (channel, mode, kind, bytes_joined lo hi low) refl

-- ===== src/Vm/Cpu/Lapic.antt =====
-- The local vector table entry LVT0 (src/vm/builder.rs).
use ferrum_vm.Prelude.{
  ℕ, zero, suc, ◌+◌, ◌*◌, ◌/◌, ◌^◌, ◌≤◌, ◌<◌, ◌≡◌, ap, bit_and, List, [], ◌∷◌, ◌++◌, length, take,
  drop, set, get_or, le→leb, ok, arith,
}
use ferrum_vm.Prelude.Bytes.{le_bytes, from_le, AreBytes}
use ferrum_vm.Prelude.Bits.{bit_and_ones, bit_and_fields, bit_and_low}
use ferrum_vm.Vm.Cpu.{unmask_lvt0}

-- `&` with 0xFE clears bit 0 of a byte.
clear_low : (r : ℕ) → r < 256 → bit_and r 0xFE ≡ r / 2 * 2
clear_low r h = omega (arith, bit_and_low r 0xFE, bit_and_ones 7 (r / 2))

-- The mask leaves the bytes but the third one, where it clears bit 0.
mask_word :
    (p q r s : ℕ)
    → p < 256
    → q < 256
    → r < 256
    → s < 256
    → bit_and (from_le (p ∷ q ∷ r ∷ s ∷ [])) 0xFFFEFFFF ≡ from_le (p ∷ q ∷ (r / 2 * 2) ∷ s ∷ [])
mask_word p q r s hp hq hr hs =
    let e : from_le (p ∷ q ∷ r ∷ s ∷ []) ≡ (s * 2 ^ 8 + r) * 2 ^ 16 + (q * 256 + p) = omega arith in
    rw e (
      omega (
        arith,
        bit_and_fields 16 (s * 2 ^ 8 + r) 0xFFFE (q * 256 + p) 0xFFFF,
        bit_and_fields 8 s 0xFF r 0xFE,
        bit_and_ones 16 (q * 256 + p),
        bit_and_ones 8 s,
        clear_low r hr,
      ))

four_bytes :
    (p q r s : ℕ)
    → p < 256
    → q < 256
    → r < 256
    → s < 256
    → le_bytes 4 (from_le (p ∷ q ∷ r ∷ s ∷ [])) ≡ p ∷ q ∷ r ∷ s ∷ []
four_bytes p q r s hp hq hr hs = ground arith

-- Of the bytes, only the one with the mask bit changes.
splice :
    (n : ℕ) (regs : List ℕ)
    → n + 4 ≤ length regs
    → AreBytes regs
    → take n regs
        ++ (le_bytes 4 (bit_and (from_le (take 4 (drop n regs))) 0xFFFEFFFF) ++ drop (n + 4) regs)
      ≡ set regs (n + 2) (get_or regs (n + 2) 0 / 2 * 2)
splice zero [] h k = absurd (omega arith)
splice zero (p ∷ []) h k = absurd (omega arith)
splice zero (p ∷ q ∷ []) h k = absurd (omega arith)
splice zero (p ∷ q ∷ r ∷ []) h k = absurd (omega arith)
splice zero (p ∷ q ∷ r ∷ s ∷ rest) h (hp, (hq, (hr, (hs, hrest)))) =
    rw (mask_word p q r s hp hq hr hs)
      (ap (λ t. t ++ rest) (four_bytes p q (r / 2 * 2) s hp hq (omega arith) hs))
splice (suc n) [] h k = absurd (omega arith)
splice (suc n) (x ∷ regs) h (hx, k) =
    let four : suc n + 4 ≡ suc (n + 4) = omega arith in
    let two : suc n + 2 ≡ suc (n + 2) = omega arith in
    rw (four, two) (ap (λ t. x ∷ t) (splice n regs (omega arith) k))

-- Where the slices are in bounds, LVT0's mask bit, bit 0 of the byte at 0x352, is cleared, and every
-- other byte stays.
pub unmask_lvt0-eq-set :
    (regs : List ℕ)
    → 0x354 ≤ length regs
    → AreBytes regs
    → unmask_lvt0 regs ≡ ok (set regs 0x352 (get_or regs 0x352 0 / 2 * 2))
unfolding unmask_lvt0
unmask_lvt0-eq-set regs h k = rw (le→leb 0x354 (length regs) h) (ap ok (splice 0x350 regs h k))

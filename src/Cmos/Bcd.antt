-- ===== src/Cmos/Bcd.antt =====
-- The time as a guest reads it from the clock (src/devices/cmos.rs).
use ferrum_vm.Prelude.{
  ℕ, ◌+◌, ◌*◌, ◌/◌, ◌%◌, ◌^◌, ◌<◌, ◌≡◌, Bool, List, [], ◌∷◌, map, ap, sym, refl, not, ◌∙◌, ◌==◌,
  arith, if◌then◌else◌, Result, ok, ◌>>=◌, Build,
}
use ferrum_vm.Prelude.Bits.{bit_or_disjoint, bit_and_ones}
use ferrum_vm.Cmos.{
  Cmos, Utc, to_bcd, coded, read_reg, write_reg, set_status_b, select, input, output, bit,
}

-- How a guest reads a byte of the clock in the binary mode and in the other one.
unfoldable pub decoded : Bool → ℕ → ℕ
decoded binary val = if binary then val else val / 16 * 10 + val % 16

-- What status register B asks for: bit 2 the binary mode, bit 1 the 24-hour mode.
abbrev pub asks_binary : ℕ → Bool
asks_binary mode = mode / 4 % 2 == 1

abbrev pub asks_24_hours : ℕ → Bool
asks_24_hours mode = mode / 2 % 2 == 1

-- The hour on a clock's face, from 1 to 12.
abbrev pub clock_face : ℕ → ℕ
clock_face hour = if hour % 12 == 0 then 12 else hour % 12

-- A guest selects status register B and writes it, selects a register by its index, reads one byte and
-- decodes it by the data mode that it asked for.
unfoldable pub clock_read : Build → Cmos → Utc → (mode index : ℕ) → Result (List ℕ)
clock_read b c now mode index = do
  selected ← output b c 0 (0x0B ∷ [])
  set ← output b selected 1 (mode ∷ [])
  pointed ← output b set 0 (index ∷ [])
  ok (map (decoded (asks_binary mode)) (input pointed now 1 1))

to_bcd-eq : (v : ℕ) → v < 100 → to_bcd v ≡ v / 10 * 2 ^ 4 + v % 10
unfolding to_bcd
to_bcd-eq v h =
    let fits : (v / 10 * 2 ^ 4) % 2 ^ 8 ≡ v / 10 * 2 ^ 4 = omega arith in
    rw fits (bit_or_disjoint 4 (v / 10) (v % 10) (omega arith))

decoded-coded : (c : Cmos) (v : ℕ) → v < 100 → decoded c.binary (coded c v) ≡ v
unfolding coded decoded
decoded-coded c v h = ground (arith, to_bcd-eq v h)

bit-eq-asks_binary : (mode : ℕ) → bit mode 2 ≡ asks_binary mode
bit-eq-asks_binary mode = ground (arith, bit_and_ones 1 (mode / 2 ^ 2))

bit-eq-asks_24_hours : (mode : ℕ) → bit mode 1 ≡ asks_24_hours mode
bit-eq-asks_24_hours mode = ground (arith, bit_and_ones 1 (mode / 2 ^ 1))

decoded-input :
    (c : Cmos) (mode v : ℕ)
    → c.binary ≡ bit mode 2
    → v < 100
    → ok (decoded (asks_binary mode) (coded c v) ∷ []) ≡ ok (v ∷ [])
decoded-input c mode v e h =
    ap (λ x. ok (x ∷ []))
      (ap (λ binary. decoded binary (coded c v)) (sym (e ∙ bit-eq-asks_binary mode))
        ∙ decoded-coded c v h)

module _ (b : Build) (c : Cmos) (now : Utc) (mode : ℕ) where
  clock_read-hour :
      now.hour < 24
      → now.hour12 ≡ clock_face now.hour
      → clock_read b c now mode 0x04
        ≡ ok ((if asks_24_hours mode then now.hour else clock_face now.hour) ∷ [])
  unfolding clock_read output write_reg set_status_b select input read_reg coded
  clock_read-hour h face =
      let given = if not (bit mode 1) then now.hour12 else now.hour in
      let same : given ≡ (if asks_24_hours mode then now.hour else clock_face now.hour) =
        ground (arith, face, bit-eq-asks_24_hours mode) in
      let bound : given < 100 = ground arith in
      decoded-input (set_status_b c mode) mode given refl bound ∙ ap (λ x. ok (x ∷ [])) same

  -- Whatever it writes to status register B, in both builds, a guest that selects and reads the clock's
  -- registers through the two ports and decodes them by the data mode that it wrote gets the second,
  -- minute, day and month of the host, the year without its century, and the hour: of 24 where it asks
  -- for the 24-hour mode, and otherwise only that on the clock's face, without the half of the day.
  pub clock_read-now :
      now.second < 60
      → now.minute < 60
      → now.hour < 24
      → now.hour12 ≡ clock_face now.hour
      → now.day < 32
      → now.month < 13
      → (clock_read b c now mode 0x00 ≡ ok (now.second ∷ []))
        × (clock_read b c now mode 0x02 ≡ ok (now.minute ∷ []))
        × (clock_read b c now mode 0x04
            ≡ ok ((if asks_24_hours mode then now.hour else clock_face now.hour) ∷ []))
        × (clock_read b c now mode 0x07 ≡ ok (now.day ∷ []))
        × (clock_read b c now mode 0x08 ≡ ok (now.month ∷ []))
        × (clock_read b c now mode 0x09 ≡ ok (now.year % 100 ∷ []))
  unfolding clock_read output write_reg set_status_b select input read_reg coded
  clock_read-now s m h face d mo =
      let set = set_status_b c mode in
      (
        decoded-input set mode now.second refl (omega arith),
        decoded-input set mode now.minute refl (omega arith),
        clock_read-hour h face,
        decoded-input set mode now.day refl (omega arith),
        decoded-input set mode now.month refl (omega arith),
        decoded-input set mode (now.year % 100) refl (omega arith),
      )

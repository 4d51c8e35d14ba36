-- ===== src/Serial/Line.antt =====
-- The interrupt line of the serial port (src/devices/serial.rs).
use ferrum_vm.Prelude.{
  ℕ, ◌%◌, ◌≡◌, sym, bit_and, bit_or, Bool, true, false, not, ◌&&◌, List, [], ◌==◌, ◌!=◌,
  if◌then◌else◌, arith, ◌∙◌,
}
use ferrum_vm.Prelude.Bits.{bit_and_low, bit_or_low, bit_and_ones}
use ferrum_vm.Transport.Line.{level, level-trigger_irq}
use ferrum_vm.Serial.{
  Serial, Port, set_line, fifo_bits, pending_id, update_iir, update_lsr, pop_bytes, move_queue,
  tick, input, output_val,
}

-- The pending bit of the interrupt identification register is 0 for a pending interrupt.
abbrev pub is_pending : ℕ → Bool
is_pending iir = bit_and iir 0x01 == 0

pub record LineShows (before : Bool) (p : Port) : Type 0 where
  pub attached : p.serial.irq_handler ≡ true
  pub shows : level before 4 p.irqs.commands ≡ is_pending p.serial.iir

if_keeps : {A : Type 0} (P : A → Type 0) (c : Bool) {x y : A} → P x → P y → P (if c then x else y)
if_keeps P true px py = px
if_keeps P false px py = py

fifo_bits-is_pending : (fcr iir : ℕ) → is_pending (fifo_bits fcr iir) ≡ is_pending iir
unfolding fifo_bits
fifo_bits-is_pending fcr iir = ground (
  arith,
  bit_or_low iir 0xC0,
  bit_and_low iir 0x3F,
  bit_and_ones 1 iir,
  bit_and_ones 1 (bit_or iir 0xC0),
  bit_and_ones 1 (bit_and iir 0x3F),
)

id-is_pending :
    (iir id : ℕ) → id % 2 ≡ 0 → is_pending (bit_or (bit_and (bit_and iir 0xFE) 0xF1) id) ≡ true
id-is_pending iir id even =
    let masked = bit_and (bit_and iir 0xFE) 0xF1 in
    ground (
      arith,
      bit_and_low iir 0xFE,
      bit_and_low (bit_and iir 0xFE) 0xF1,
      bit_or_low masked id,
      bit_and_ones 1 (bit_or masked id),
    )

none-is_pending : (iir : ℕ) → is_pending (bit_or iir 0x01) ≡ false
none-is_pending iir = ground (arith, bit_or_low iir 0x01, bit_and_ones 1 (bit_or iir 0x01))

-- The two results of `pending_id` agree.
pending_id-agrees : (s : Serial) → is_pending (pending_id s).1 ≡ (pending_id s).0
unfolding pending_id
pending_id-agrees s = ground (
  arith,
  id-is_pending s.iir 8 (omega arith),
  id-is_pending s.iir 4 (omega arith),
  none-is_pending s.iir,
)

set-LineShows :
    (before value : Bool) (p : Port)
    → p.serial.irq_handler ≡ true
    → value ≡ is_pending p.serial.iir
    → LineShows before (set_line p value)
unfolding set_line
set-LineShows before value p on e =
    ground (arith, level-trigger_irq before 4 p.irqs (record { irq_line = 4; value = value }))

set_line-update :
    (before was : Bool) (p : Port)
    → p.serial.irq_handler ≡ true
    → level before 4 p.irqs.commands ≡ was
    → (now : Bool) → is_pending p.serial.iir ≡ now
    → LineShows before
        (if now && not was then set_line p true else if not now && was then set_line p false else p)
set_line-update before true p on e true e' = record { attached = on; shows = cc }
set_line-update before true p on e false e' = set-LineShows before false p on (sym e')
set_line-update before false p on e true e' = set-LineShows before true p on (sym e')
set_line-update before false p on e false e' = record { attached = on; shows = cc }

pub update_iir-LineShows :
    (before : Bool) (p : Port) → LineShows before p → LineShows before (update_iir p)
unfolding update_iir
update_iir-LineShows before p l =
    let fifo = record p.serial { iir = fifo_bits p.serial.fcr p.serial.iir } in
    set_line-update before (is_pending p.serial.iir)
      (record p { serial = record fifo { iir = (pending_id fifo).1 } }) l.attached l.shows
      (pending_id fifo).0 (pending_id-agrees fifo)

-- Each operation keeps the line in step.
module _ (before : Bool) where
  pub tick-LineShows : (p : Port) → LineShows before p → LineShows before (tick p)
  unfolding tick update_lsr
  tick-LineShows p l =
      let moved =
        update_iir-LineShows before
          (record p {
            serial = record p.serial {
              received = move_queue p.serial.queue p.serial.received;
              queue = [];
            };
          })
          (record { attached = l.attached; shows = l.shows }) in
      record { attached = moved.attached; shows = moved.shows }

  pub input-LineShows :
      (file_write : List ℕ → List ℕ → List ℕ) (p : Port) (port length : ℕ)
      → LineShows before p
      → LineShows before (input file_write p port length).1
  unfolding input update_lsr
  input-LineShows file_write p port length l =
      let popped =
        update_iir-LineShows before
          (record p {
            serial = record p.serial { received = (pop_bytes length p.serial.received).1 };
          })
          (record { attached = l.attached; shows = l.shows }) in
      if_keeps P (port == 0)
        (if_keeps P (bit_and p.serial.lcr 0x80 != 0)
          (record { attached = l.attached; shows = l.shows }) popped)
        (if_keeps P (port == 1) (record { attached = l.attached; shows = l.shows })
          (if_keeps P (port == 2) (record { attached = l.attached; shows = l.shows })
            (if_keeps P (port == 3) (record { attached = l.attached; shows = l.shows })
              (if_keeps P (port == 4) (record { attached = l.attached; shows = l.shows })
                (if_keeps P (port == 5) (record { attached = l.attached; shows = l.shows })
                  (if_keeps P (port == 6) (record { attached = l.attached; shows = l.shows })
                    (if_keeps P (port == 7) (record { attached = l.attached; shows = l.shows })
                      (record { attached = l.attached; shows = l.shows }))))))))
    where
      P : List ℕ × Port → Type 0
      P r = LineShows before r.1

  pub output_val-LineShows :
      (file_write : List ℕ → List ℕ → List ℕ) (p : Port) (port val : ℕ) (bytes : List ℕ)
      → LineShows before p
      → LineShows before (output_val file_write p port val bytes)
  unfolding output_val
  output_val-LineShows file_write p port val bytes l =
      let P = LineShows before in
      let fifo = fifo_bits-is_pending val p.serial.iir in
      if_keeps P (port == 0)
        (if_keeps P (bit_and p.serial.lcr 0x80 != 0)
          (record { attached = l.attached; shows = l.shows })
          (update_iir-LineShows before _ (record { attached = l.attached; shows = l.shows })))
        (if_keeps P (port == 1)
          (if_keeps P (bit_and p.serial.lcr 0x80 != 0)
            (record { attached = l.attached; shows = l.shows })
            (update_iir-LineShows before _ (record { attached = l.attached; shows = l.shows })))
          (if_keeps P (port == 2)
            (update_iir-LineShows before _
              (record { attached = l.attached; shows = l.shows ∙ sym fifo }))
            (if_keeps P (port == 3) (record { attached = l.attached; shows = l.shows })
              (if_keeps P (port == 4) (record { attached = l.attached; shows = l.shows })
                (if_keeps P (port == 7) (record { attached = l.attached; shows = l.shows }) l)))))

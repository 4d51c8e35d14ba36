-- ===== src/Serial.antt =====
-- The serial port: src/devices/serial.rs, from the state of `Serial` on. The keyboard thread of
-- `Serial::new` is outside: it appends bytes to the shared `queue`.
use ferrum_vm.Prelude.{
  is_empty, ℕ, zero, suc, bit_and, bit_or, Bool, true, false, not, ◌&&◌, List, [], ◌∷◌, ◌++◌,
  get_or, get_elem?, replicate, ◌==◌, ◌!=◌, if◌then◌else◌, Result, ok, ◌>>=◌, unwrap, Option,
}
use ferrum_vm.Irq.{IrqHandler, IrqCommand, trigger_irq}
use ferrum_vm.DeviceMap.Io.{IoDevice}
pub mod Line
pub mod Reach
pub mod Input
pub mod Keyboard
mod Examples

-- What was printed, or the content of the file.
pub data SerialMode : Type 0 where
  terminal log_file : List ℕ → SerialMode

pub record Serial : Type 0 where
  pub received : List ℕ  -- `VecDeque`, back first
  pub irq_handler : Bool  -- whether a handler is attached
  pub queue : List ℕ  -- `Vec`, last element first
  pub mode : SerialMode
  pub ier : ℕ
  pub iir : ℕ
  pub fcr : ℕ
  pub lcr : ℕ
  pub mcr : ℕ
  pub lsr : ℕ
  pub msr : ℕ
  pub scr : ℕ
  pub dll : ℕ
  pub dlh : ℕ
  pub thr_empty : Bool

-- The device with the shared interrupt handler.
pub record Port : Type 0 where
  pub serial : Serial
  pub irqs : IrqHandler

unfoldable pub new : SerialMode → Serial
new mode = record {
  received = [];
  irq_handler = false;
  queue = [];
  mode = mode;
  ier = 0;
  iir = 0x01;
  fcr = 0;
  lcr = 0;
  mcr = 0;
  lsr = 0x60;
  msr = 0;
  scr = 0;
  dll = 0;
  dlh = 0;
  thr_empty = true;
}

-- `trigger_irq` and `deassert_irq`.
unfoldable pub set_line : Port → Bool → Port
set_line p value =
    if p.serial.irq_handler
    then record p { irqs = trigger_irq p.irqs (record { irq_line = 4; value = value }) }
    else p

-- `self.iir |= 0xC0` or `self.iir &= !0xC0`.
unfoldable pub fifo_bits : ℕ → ℕ → ℕ
fifo_bits fcr iir = if bit_and fcr 0x01 != 0 then bit_or iir 0xC0 else bit_and iir 0x3F

-- The cause of the interrupt, when there is one.
unfoldable pub pending_id : Serial → Bool × ℕ
pending_id s =
    if bit_and s.ier 0x01 != 0 && not (is_empty s.received)
    then (true, bit_or (bit_and (bit_and s.iir 0xFE) 0xF1) 8)
    else if bit_and s.ier 0x02 != 0 && s.thr_empty
    then (true, bit_or (bit_and (bit_and s.iir 0xFE) 0xF1) 4)
    else (false, bit_or s.iir 0x01)

unfoldable pub update_iir : Port → Port
update_iir p =
    let was_pending = bit_and p.serial.iir 0x01 == 0 in
    let fifo = record p.serial { iir = fifo_bits p.serial.fcr p.serial.iir } in
    let (now_pending, iir) = pending_id fifo in
    let updated = record p { serial = record fifo { iir = iir } } in
    if now_pending && not was_pending
    then set_line updated true
    else if not now_pending && was_pending
    then set_line updated false
    else updated

unfoldable pub update_lsr : Serial → Serial
update_lsr s =
    let lsr = bit_or s.lsr 0x60 in
    record s { lsr = if not (is_empty s.received) then bit_or lsr 0x01 else bit_and lsr 0xFE }

-- The loop of `input` on port 0: `out[i]` keeps its 0 when there is no byte left.
unfoldable pub pop_bytes : ℕ → List ℕ → List ℕ × List ℕ
pop_bytes zero queued = ([], queued)
pop_bytes (suc length) [] = (0 ∷ (pop_bytes length []).0, [])
pop_bytes (suc length) (x ∷ xs) = (x ∷ (pop_bytes length xs).0, (pop_bytes length xs).1)

-- `self.data.push_back(b)` for every `b` that `queue.pop()` takes.
unfoldable pub move_queue : List ℕ → List ℕ → List ℕ
move_queue [] bytes = bytes
move_queue (b ∷ queue) bytes = move_queue queue (b ∷ bytes)

unfoldable pub set_data : Port → List ℕ → Port
set_data p new_data =
    set_line
      (record p { serial = record p.serial { received = move_queue new_data p.serial.received } })
      true

unfoldable pub tick : Port → Port
tick p =
    let updated = update_iir (record p {
      serial = record p.serial {
        received = move_queue p.serial.queue p.serial.received;
        queue = [];
      };
    }) in
    record updated { serial = update_lsr updated.serial }

-- `file.write(data)`, its outcome ignored, is a parameter: the content of the file after it.
module _ (file_write : List ℕ → List ℕ → List ℕ) where
  unfoldable pub transmit : List ℕ → ℕ → SerialMode → SerialMode
  transmit bytes val (terminal printed) = terminal (printed ++ (val ∷ []))
  transmit bytes val (log_file content) = log_file (file_write content bytes)

  unfoldable pub input : Port → ℕ → ℕ → List ℕ × Port
  input p port length =
      let s = p.serial in
      let dlab = bit_and s.lcr 0x80 != 0 in
      if port == 0
      then if dlab then (replicate length s.dll, p) else (
        (pop_bytes length s.received).0,
        update_iir (record p { serial = record s { received = (pop_bytes length s.received).1 } }),
      )
      else if port == 1
      then (replicate length (if dlab then s.dlh else s.ier), p)
      else if port == 2
      then (replicate length s.iir, p)
      else if port == 3
      then (replicate length s.lcr, p)
      else if port == 4
      then (replicate length s.mcr, p)
      else if port == 5
      then (replicate length (update_lsr s).lsr, record p { serial = update_lsr s })
      else if port == 6
      then (replicate length s.msr, p)
      else if port == 7
      then (replicate length s.scr, p)
      else (replicate length 0, p)

  -- The body of `output` after `data[0]`.
  unfoldable pub output_val : Port → ℕ → ℕ → List ℕ → Port
  output_val p port val bytes =
      let s = p.serial in
      let dlab = bit_and s.lcr 0x80 != 0 in
      if port == 0
      then if dlab
        then record p { serial = record s { dll = val } }
        else update_iir
            (record p { serial = record s { mode = transmit bytes val s.mode; thr_empty = true } })
      else if port == 1
      then if dlab
        then record p { serial = record s { dlh = val } }
        else update_iir (record p { serial = record s { ier = bit_and val 0x0F } })
      else if port == 2
      then update_iir (record p { serial = record s { fcr = val; iir = fifo_bits val s.iir } })
      else if port == 3
      then record p { serial = record s { lcr = val } }
      else if port == 4
      then record p { serial = record s { mcr = val } }
      else if port == 7
      then record p { serial = record s { scr = val } }
      else p

  unfoldable pub output : Port → ℕ → List ℕ → Result Port
  output p port bytes = do val ← unwrap (get_elem? bytes 0); ok (output_val p port val bytes)

  abbrev pub device : IoDevice Serial IrqHandler
  device = record {
    input = λ s irqs port length.
        let (bytes, p) = input (record { serial = s; irqs = irqs }) port length in
        ok (bytes, p.serial, p.irqs);
    output = λ s irqs port bytes. do
      p ← output (record { serial = s; irqs = irqs }) port bytes
      ok (p.serial, p.irqs);
    irq_handler = λ s. record s { irq_handler = true };
    tick = λ s irqs. let p = tick (record { serial = s; irqs = irqs }) in ok (p.serial, p.irqs);
  }

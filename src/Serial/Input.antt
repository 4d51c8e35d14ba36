-- ===== src/Serial/Input.antt =====
-- The received bytes of the serial port (src/devices/serial.rs): from the keyboard thread's queue to
-- the guest's reads of port 0.
use ferrum_vm.Prelude.{
  ℕ, zero, suc, ◌≡◌, refl, ap, bit_and, Bool, true, false, List, [], ◌∷◌, ◌++◌, ◌==◌, ◌!=◌,
  if◌then◌else◌, arith, not, ◌&&◌,
}
use ferrum_vm.Serial.{
  Port, set_line, fifo_bits, pending_id, update_iir, update_lsr, pop_bytes, move_queue, tick, input,
}

-- `queue.extend_from_slice`, on the queue with its last element first.
unfoldable pub extend_queue : List ℕ → List ℕ → List ℕ
extend_queue [] queue = queue
extend_queue (b ∷ bytes) queue = extend_queue bytes (b ∷ queue)

-- The first `n` elements, and zeros where there are fewer.
unfoldable pub padded : ℕ → List ℕ → List ℕ
padded zero xs = []
padded (suc n) [] = 0 ∷ padded n []
padded (suc n) (x ∷ xs) = x ∷ padded n xs

move_queue-extend_queue :
    (bytes queue received : List ℕ)
    → move_queue (extend_queue bytes queue) received ≡ move_queue queue (bytes ++ received)
unfolding move_queue extend_queue
move_queue-extend_queue [] queue received = refl
move_queue-extend_queue (b ∷ bytes) queue received =
    move_queue-extend_queue bytes (b ∷ queue) received

pop_bytes-padded : (n : ℕ) (xs : List ℕ) → (pop_bytes n xs).0 ≡ padded n xs
unfolding pop_bytes padded
pop_bytes-padded zero xs = refl
pop_bytes-padded (suc n) [] = ap (λ ys. 0 ∷ ys) (pop_bytes-padded n [])
pop_bytes-padded (suc n) (x ∷ xs) = ap (λ ys. x ∷ ys) (pop_bytes-padded n xs)

serial-set_line : (p : Port) (value : Bool) → (set_line p value).serial ≡ p.serial
unfolding set_line
serial-set_line p value = ground arith

serial-set_line_if :
    (now was : Bool) (p : Port)
    → (if now && not was
        then set_line p true
        else if not now && was
        then set_line p false
        else p).serial
      ≡ p.serial
serial-set_line_if true true p = refl
serial-set_line_if true false p = serial-set_line p true
serial-set_line_if false true p = serial-set_line p false
serial-set_line_if false false p = refl

-- The port after the interrupt is recomputed, the line aside.
unfoldable identified : Port → Port
identified p =
    let fifo = record p.serial { iir = fifo_bits p.serial.fcr p.serial.iir } in
    record p { serial = record fifo { iir = (pending_id fifo).1 } }

update_iir-identified : (p : Port) → (update_iir p).serial ≡ (identified p).serial
unfolding update_iir identified
update_iir-identified p =
    serial-set_line_if
      (pending_id (record p.serial { iir = fifo_bits p.serial.fcr p.serial.iir })).0
      (bit_and p.serial.iir 0x01 == 0) (identified p)

update_iir-received : (p : Port) → (update_iir p).serial.received ≡ p.serial.received
unfolding identified
update_iir-received p = ap (λ s. s.received) (update_iir-identified p)

update_iir-lcr : (p : Port) → (update_iir p).serial.lcr ≡ p.serial.lcr
unfolding identified
update_iir-lcr p = ap (λ s. s.lcr) (update_iir-identified p)

-- The port once the queue is moved.
abbrev polled : Port → Port
polled p = record p {
  serial = record p.serial { received = move_queue p.serial.queue p.serial.received; queue = [] };
}

-- Bytes typed into an empty queue come out of port 0 after the next tick in the order they were
-- typed, before any byte that an earlier tick left unread: a read of `n` bytes with the divisor latch
-- closed returns the first `n` of them, and 0 where there are no more.
pub input-tick :
    (file_write : List ℕ → List ℕ → List ℕ) (p : Port) (typed : List ℕ) (n : ℕ)
    → p.serial.queue ≡ extend_queue typed []
    → (bit_and p.serial.lcr 0x80 != 0) ≡ false
    → (input file_write (tick p) 0 n).0 ≡ padded n (typed ++ p.serial.received)
unfolding input tick update_lsr pop_bytes padded move_queue
input-tick file_write p typed n queued closed =
    let moved = move_queue-extend_queue typed [] p.serial.received in
    rw
      (
        update_iir-lcr (polled p),
        closed,
        update_iir-received (polled p),
        queued,
        moved,
        pop_bytes-padded n (typed ++ p.serial.received),
      )
      refl

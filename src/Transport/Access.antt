-- ===== src/Transport/Access.antt =====
-- Which accesses to the virtio-mmio transport panic, and what a reset restores
-- (`read` and `write` of src/devices/virtio/transports/mmio.rs).
use ferrum_vm.Prelude.{
  ℕ, ◌+◌, ◌-◌, ◌≤◌, ◌<◌, ◌≡◌, refl, ap, false, List, [], ◌∷◌, map, replicate, length, take,
  get_elem?_in, length-take, arith, Result, ok, panic, no_fuel, ◌>>=◌, Build, Returns, u64_mod,
  lt→leb, le→leb, add_word_exact,
}
use ferrum_vm.Prelude.Bytes.{le_bytes}
use ferrum_vm.Virtqueue
use ferrum_vm.Virtqueue.{VirtioQueue}
use ferrum_vm.Virtio.{VirtioDevice}
use ferrum_vm.Transport.{Bus, new, read_u32_from_data, slice}
use ferrum_vm.Transport.Read.{read, read_register}
use ferrum_vm.Transport.Write.{write, write_at, write_register, reset}
use ferrum_vm.Transport.Line.{transport-set_irq_line}

-- The selected queue exists.
abbrev pub HasSelected : {D : Type 0} → Bus D → Type 0
HasSelected s = s.transport.queue_sel < length s.transport.queues

module _ {D : Type 0} (b : Build) (dev : VirtioDevice D) where
  read_register-Returns :
      (s : Bus D) (addr : ℕ)
      → HasSelected s
      → Returns (read_register b dev s addr) (λ r. r.1.transport.queues ≡ s.transport.queues)
  unfolding read_register
  read_register-Returns s addr h =
      let (q, e) = get_elem?_in s.transport.queues s.transport.queue_sel h in
      ground (
        arith,
        transport-set_irq_line
            (record s { transport = record s.transport { interrupt_status = 0 } }) false,
      )

  slice_short :
      (v n : ℕ)
      → n ≤ 8
      → (length (take n (le_bytes 8 v)) ≡ n)
        × (slice (le_bytes 8 v) 0 n ≡ ok (take n (le_bytes 8 v)))
  unfolding slice
  slice_short v n h = (omega (arith, length-take n (le_bytes 8 v)), ground arith)

  -- A read of at most 8 bytes of a register returns as many bytes, and keeps the queues: no guest
  -- access to a register panics while the selected queue exists.
  pub read-Returns :
      (s : Bus D) (addr len : ℕ)
      → HasSelected s
      → addr < 0x100
      → len ≤ 8
      → Returns
          (read b dev s addr len)
          (λ r. (length r.0 ≡ len) × (r.1.transport.queues ≡ s.transport.queues))
  unfolding read
  read-Returns s addr len h below short =
      rw (lt→leb 0x100 addr below)
        (through (read_register b dev s addr) (read_register-Returns s addr h))
    where
      through :
          (r : Result (ℕ × Bus D))
          → Returns r (λ r. r.1.transport.queues ≡ s.transport.queues)
          → Returns {A = List ℕ × Bus D}
              (do (value, s') ← r; bytes ← slice (le_bytes 8 value) 0 len; ok (bytes, s'))
              (λ r. (length r.0 ≡ len) × (r.1.transport.queues ≡ s.transport.queues))
      through (ok (v, s')) e = let short' = slice_short v len short in rw (short'.1) (short'.0, e)
      through panic e = e
      through no_fuel e = e

  -- A read of the configuration space beyond what the device gives panics.
  read_config-panic :
      (s : Bus D) (addr len : ℕ)
      → ((n : ℕ) → dev.read_config s.transport.device n ≡ [])
      → 0x100 ≤ addr
      → 0 < len
      → addr + len < u64_mod
      → read b dev s addr len ≡ panic
  unfolding read slice
  read_config-panic s addr len empty above pos space =
      rw
        (
          le→leb 0x100 addr above,
          add_word_exact b u64_mod (addr - 0x100) len (omega arith),
          empty (addr - 0x100 + len),
          lt→leb (addr - 0x100 + len) 0 (omega arith),
        )
        refl

  new_queues :
      (qs : List VirtioQueue) → map (λ _. Virtqueue.new) qs ≡ replicate (length qs) Virtqueue.new
  new_queues [] = refl
  new_queues (q ∷ qs) = ap (λ (t : List VirtioQueue). Virtqueue.new ∷ t) (new_queues qs)

  -- Writing 0 to the status register leaves the transport as `new` makes it, with the device reset,
  -- and with the number of queues, the interrupt line and the attached handles kept.
  write_status_zero :
      (s : Bus D)
      → Returns (write b dev s 0x070 (0 ∷ 0 ∷ 0 ∷ 0 ∷ [])) (λ s'.
        s'.transport
        ≡ record (new
            (dev.reset s.transport.device)
            (length s.transport.queues)
            s.transport.irq_sel) {
              irq_handler = s.transport.irq_handler;
              guest_memory = s.transport.guest_memory;
            })
  unfolding write write_register write_at read_u32_from_data reset new
  write_status_zero s = rw transport-set_irq_line (rw (new_queues s.transport.queues))

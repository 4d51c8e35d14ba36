-- ===== src/Transport/Read.antt =====
-- Reads of the registers and of the configuration space (src/devices/virtio/transports/mmio.rs).
use ferrum_vm.Prelude.{
  ℕ, ◌-◌, ◌/◌, ◌%◌, ◌^◌, bit_or, false, ◌||◌, List, ◌==◌, ◌!=◌, leb, if◌then◌else◌, Result, ok,
  ◌>>=◌, Build, add_word, u32_mod, u64_mod,
}
use ferrum_vm.Prelude.Bytes.{le_bytes}
use ferrum_vm.Virtio.{VirtioDevice}
use ferrum_vm.Transport.{
  magic_number, version, vendor_id, queue_num_max, virtio_f_version_1, slice, Bus, set_irq_line,
  selected,
}

module _ {D : Type 0} (b : Build) (dev : VirtioDevice D) where
  -- The value of a register; reading the interrupt status clears it and lowers the line.
  unfoldable pub read_register : Bus D → ℕ → Result (ℕ × Bus D)
  read_register s addr =
      let t = s.transport in
      let features = bit_or (dev.features t.device) virtio_f_version_1 in
      let status_cleared = record s { transport = record t { interrupt_status = 0 } } in
      if addr == 0x000
      then ok (magic_number, s)
      else if addr == 0x004
      then ok (version, s)
      else if addr == 0x008
      then ok (dev.virtio_type t.device, s)
      else if addr == 0x00C
      then ok (vendor_id, s)
      else if addr == 0x010
      then ok (
        if t.device_features_sel == 0 then features % u32_mod else (features / 2 ^ 32) % u32_mod,
        s,
      )
      else if addr == 0x034
      then ok (queue_num_max, s)
      else if addr == 0x038
      then (do q ← selected s; ok (q.size, s))
      else if addr == 0x044
      then (do q ← selected s; ok ((if q.ready then 1 else 0), s))
      else if addr == 0x070
      then ok (t.status, s)
      else if addr == 0x060
      then ok (
        t.interrupt_status,
        if t.interrupt_status != 0 then set_irq_line status_cleared false else s,
      )
      else if addr == 0x0B0 || addr == 0x0B4
      then ok (0xFFFFFFFF, s)
      else ok (0, s)

  unfoldable pub read : Bus D → ℕ → ℕ → Result (List ℕ × Bus D)
  read s addr len =
      if leb 0x100 addr
      then (do
        let offset = addr - 0x100
        end ← add_word b u64_mod offset len
        bytes ← slice (dev.read_config s.transport.device end) offset len
        ok (bytes, s))
      else (do
        (value, s') ← read_register s addr
        bytes ← slice (le_bytes 8 value) 0 len
        ok (bytes, s'))

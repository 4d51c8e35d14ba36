-- ===== src/Transport/Write.antt =====
-- Writes of the registers and of the configuration space (src/devices/virtio/transports/mmio.rs).
-- The match on the address is split into `write_register`, which names the register, and `write_at`,
-- with a clause for each.
use ferrum_vm.Prelude.{
  ℕ, ◌-◌, false, not, ◌&&◌, ◌||◌, none, some, List, [], ◌∷◌, ◌==◌, ◌!=◌, ltb, leb, if◌then◌else◌,
  length, get_elem?, set, map, Result, ok, ◌>>=◌, unwrap, Build,
}
use ferrum_vm.Prelude.Bytes.{from_le}
use ferrum_vm.Virtqueue
use ferrum_vm.Virtqueue.{VirtioQueue}
use ferrum_vm.Virtio.{VirtioDevice}
use ferrum_vm.Transport.{
  read_u32_from_data, Bus, set_low, set_high, clear_bits, set_irq_line, update_selected,
  mark_served, lower_idle,
}

pub data Register : Type 0 where
  device_features_sel driver_features driver_features_sel shm_sel unused queue_sel queue_size :
      Register
  queue_ready queue_notify interrupt_ack device_status : Register
  desc_low desc_high avail_low avail_high used_low used_high config other : Register

-- The patterns of `write`'s match, in order.
unfoldable pub write_register : ℕ → Register
write_register addr =
    if addr == 0x014
    then device_features_sel
    else if addr == 0x020
    then driver_features
    else if addr == 0x024
    then driver_features_sel
    else if addr == 0x0AC
    then shm_sel
    else if addr == 0x028
    then unused
    else if addr == 0x030
    then queue_sel
    else if addr == 0x038
    then queue_size
    else if addr == 0x044
    then queue_ready
    else if addr == 0x050
    then queue_notify
    else if addr == 0x060 || addr == 0x064
    then interrupt_ack
    else if addr == 0x070
    then device_status
    else if addr == 0x080
    then desc_low
    else if addr == 0x084
    then desc_high
    else if addr == 0x090
    then avail_low
    else if addr == 0x094
    then avail_high
    else if addr == 0x0A0
    then used_low
    else if addr == 0x0A4
    then used_high
    else if leb 0x100 addr
    then config
    else other

module _ {D : Type 0} (b : Build) (dev : VirtioDevice D) where
  -- A notification of queue `i`: the device serves it if it is ready.
  unfoldable pub notify : Bus D → ℕ → Result (Bus D)
  notify s i =
      let t = s.transport in
      elim (get_elem? t.queues i) [
        | none ↦ ok s
        | some q ↦
            if q.ready
            then (do
              (did_work, io) ← dev.tick (record { mem = s.mem; queue = q; device = t.device }) i
              ok (
                  mark_served did_work (record s {
                    transport = record t { device = io.device; queues = set t.queues i io.queue };
                    mem = io.mem;
                  })))
            else ok s
      ]

  -- Writing 0 to the status register resets the transport and the device.
  unfoldable pub reset : Bus D → Bus D
  reset s =
      let t = record s.transport {
        queues = map (λ _. Virtqueue.new) s.transport.queues;
        interrupt_status = 0;
        queue_sel = 0;
        device_features_sel = 0;
        driver_features_sel = 0;
        driver_features = 0;
        shm_sel = 0;
      } in
      let lowered = set_irq_line (record s { transport = t }) false in
      record lowered {
        transport = record lowered.transport { device = dev.reset lowered.transport.device };
      }

  -- `write`, one clause for each register.
  unfoldable pub write_at : Register → Bus D → ℕ → List ℕ → Result (Bus D)
  write_at device_features_sel s addr bytes = do
    val ← read_u32_from_data bytes
    ok (record s { transport = record s.transport { device_features_sel = val } })
  write_at driver_features s addr bytes = do
    val ← read_u32_from_data bytes
    let t = s.transport
    let features =
        if t.driver_features_sel == 0
        then set_low t.driver_features val
        else set_high t.driver_features val
    ok (record s {
      transport = record t {
        driver_features = features;
        device = dev.negotiate_features t.device features;
      };
    })
  write_at driver_features_sel s addr bytes = do
    val ← read_u32_from_data bytes
    ok (record s { transport = record s.transport { driver_features_sel = val } })
  write_at shm_sel s addr bytes = do
    val ← read_u32_from_data bytes
    ok (record s { transport = record s.transport { shm_sel = val } })
  write_at unused s addr bytes = ok s
  write_at queue_sel s addr bytes = do
    sel ← read_u32_from_data bytes
    ok (
        if ltb sel (length s.transport.queues)
        then record s { transport = record s.transport { queue_sel = sel } }
        else s)
  write_at queue_size s addr bytes = do
    low ← unwrap (get_elem? bytes 0)
    high ← unwrap (get_elem? bytes 1)
    update_selected s (λ q. record q { size = from_le (low ∷ high ∷ []) })
  write_at queue_ready s addr bytes = do
    val ← unwrap (get_elem? bytes 0)
    update_selected s (λ q. record q {
      ready = val != 0;
      last_avail_idx = if not q.ready && val != 0 then 0 else q.last_avail_idx;
    })
  write_at queue_notify s addr bytes = do i ← read_u32_from_data bytes; notify s i
  write_at interrupt_ack s addr bytes = do
    ack ← read_u32_from_data bytes
    let t = s.transport
    let s' = record s {
      transport = record t { interrupt_status = clear_bits t.interrupt_status ack };
    }
    ok (lower_idle s')
  write_at device_status s addr bytes = do
    val ← read_u32_from_data bytes
    let s' = if val == 0 then reset s else s
    ok (record s' { transport = record s'.transport { status = val } })
  write_at desc_low s addr bytes = do
    val ← read_u32_from_data bytes
    update_selected s (λ q. record q { desc_addr = set_low q.desc_addr val })
  write_at desc_high s addr bytes = do
    val ← read_u32_from_data bytes
    update_selected s (λ q. record q { desc_addr = set_high q.desc_addr val })
  write_at avail_low s addr bytes = do
    val ← read_u32_from_data bytes
    update_selected s (λ q. record q { avail_addr = set_low q.avail_addr val })
  write_at avail_high s addr bytes = do
    val ← read_u32_from_data bytes
    update_selected s (λ q. record q { avail_addr = set_high q.avail_addr val })
  write_at used_low s addr bytes = do
    val ← read_u32_from_data bytes
    update_selected s (λ q. record q { used_addr = set_low q.used_addr val })
  write_at used_high s addr bytes = do
    val ← read_u32_from_data bytes
    update_selected s (λ q. record q { used_addr = set_high q.used_addr val })
  write_at config s addr bytes = ok (record s {
    transport = record s.transport {
      device = dev.write_config s.transport.device (addr - 0x100) bytes;
    };
  })
  write_at other s addr bytes = ok s

  unfoldable pub write : Bus D → ℕ → List ℕ → Result (Bus D)
  write s addr bytes = write_at (write_register addr) s addr bytes

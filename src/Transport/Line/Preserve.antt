-- ===== src/Transport/Line/Preserve.antt =====
-- Every access to the virtio-mmio transport keeps its interrupt line at its interrupt status
-- (`read`, `write` and `tick` of src/devices/virtio/transports/mmio.rs).
use ferrum_vm.Prelude.{
  ℕ, ◌+◌, ◌≡◌, refl, bit_or, Bool, true, false, List, [], ◌∷◌, ◌!=◌, if◌then◌else◌, arith, Result,
  ok, Build, leb, Bool-cases, inl, inr, get_elem?, ◌>>=◌, panic, no_fuel, Option-cases, >>=-eq-ok,
  set, subst, map, ◌∙◌,
}
use ferrum_vm.Memory.{GuestMemory}
use ferrum_vm.Prelude.Bytes.{le_bytes}
use ferrum_vm.Virtqueue
use ferrum_vm.Virtqueue.{VirtioQueue}
use ferrum_vm.Virtio.{VirtioDevice}
use ferrum_vm.Transport.{
  Bus, set_irq_line, update_selected, slice, clear_bits, read_u32_from_data, mark_served,
  lower_idle, raise_edge,
}
use ferrum_vm.Transport.Write.{Register, write_at, write_register, write, reset, notify}
use ferrum_vm.Transport.Read.{read_register, read}
use ferrum_vm.Transport.Tick.{tick, tick_queue, tick_queues, tick_ready}
use ferrum_vm.Transport.Line.{
  LineShows, set-LineShows, mark_served-LineShows, lower_idle-LineShows, raise_edge-LineShows,
  or_one_pending, clear_none,
}

module _ {D : Type 0} (b : Build) (dev : VirtioDevice D) (before : Bool) where
  read_register-LineShows :
      (s : Bus D) (addr v : ℕ) (s' : Bus D)
      → LineShows before s
      → read_register b dev s addr ≡ ok (v, s')
      → LineShows before s'
  unfolding read_register
  read_register-LineShows s addr v s' l h =
      let t = s.transport in
      let cleared = record s { transport = record t { interrupt_status = 0 } } in
      ground (arith, set-LineShows before cleared false l.attached refl)

  pub read-LineShows :
      (s : Bus D) (addr len : ℕ) (bytes : List ℕ) (s' : Bus D)
      → LineShows before s
      → read b dev s addr len ≡ ok (bytes, s')
      → LineShows before s'
  unfolding read
  read-LineShows s addr len bytes s' l h = elim (Bool-cases (leb 0x100 addr)) [
    | inl e ↦ ground arith
    | inr e ↦ later (read_register b dev s addr) refl (rw e at h)
  ]
    where
      later :
          (r : Result (ℕ × Bus D))
          → read_register b dev s addr ≡ r
          → ◌≡◌ {A = Result (List ℕ × Bus D)}
              (do (value, t) ← r; bs ← slice (le_bytes 8 value) 0 len; ok (bs, t))
              (ok (bytes, s'))
          → LineShows before s'
      later (ok (v, t)) e h₁ =
          let l' : LineShows before t = read_register-LineShows s addr v t l e in ground arith
      later panic e h₁ = cc
      later no_fuel e h₁ = cc

  notify-LineShows :
      (s : Bus D) (i : ℕ) (s' : Bus D)
      → LineShows before s
      → notify b dev s i ≡ ok s'
      → LineShows before s'
  unfolding notify
  notify-LineShows s i s' l h = elim (Option-cases (get_elem? s.transport.queues i)) [
    | inl e ↦ ground arith
    | inr (q, e) ↦ served q q.ready (rw (e, notify) at h)
  ]
    where
      served :
          (q : VirtioQueue) (on : Bool)
          → ◌≡◌ {A = Result (Bus D)}
              (if on
                then (do
                  (did_work, io) ←
                      dev.tick (record { mem = s.mem; queue = q; device = s.transport.device }) i
                  ok (
                      mark_served did_work (record s {
                        transport = record s.transport {
                          device = io.device;
                          queues = set s.transport.queues i io.queue;
                        };
                        mem = io.mem;
                      })))
                else ok s)
              (ok s')
          → LineShows before s'
      served q false h₁ = ground arith
      served q true h₁ =
          let (r, e, h₂) =
            >>=-eq-ok (dev.tick (record { mem = s.mem; queue = q; device = s.transport.device }) i)
              _ h₁ in
          let t : Bus D = record s {
            transport = record s.transport {
              device = r.1.device;
              queues = set s.transport.queues i r.1.queue;
            };
            mem = r.1.mem;
          } in
          let marked : LineShows before (mark_served r.0 t) =
            mark_served-LineShows before r.0 t
              (record { attached = l.attached; shows = l.shows }) in
          let e' : mark_served r.0 t ≡ s' = cc h₂ in subst (LineShows before) e' marked

  reset-LineShows : (s : Bus D) → LineShows before s → LineShows before (reset b dev s)
  unfolding reset
  reset-LineShows s l =
      let t : Bus D = record s {
        transport = record s.transport {
          queues = map (λ _. Virtqueue.new) s.transport.queues;
          interrupt_status = 0;
          queue_sel = 0;
          device_features_sel = 0;
          driver_features_sel = 0;
          driver_features = 0;
          shm_sel = 0;
        };
      } in
      let lowered : LineShows before (set_irq_line t false) =
        set-LineShows before t false l.attached refl in
      record { attached = lowered.attached; shows = lowered.shows }

  -- The registers that touch neither the interrupt status nor the line.
  write_at-LineShows :
      (r : Register) (s : Bus D) (addr : ℕ) (bytes : List ℕ) (s' : Bus D)
      → LineShows before s
      → write_at b dev r s addr bytes ≡ ok s'
      → LineShows before s'
  unfolding write_at update_selected
  write_at-LineShows Register.queue_notify s addr bytes s' l h =
      let (i, _, h₁) = >>=-eq-ok (read_u32_from_data bytes) _ h in notify-LineShows s i s' l h₁
  write_at-LineShows Register.interrupt_ack s addr bytes s' l h =
      let (ack, _, h₁) = >>=-eq-ok (read_u32_from_data bytes) _ h in
      let t : Bus D = record s {
        transport = record s.transport {
          interrupt_status = clear_bits s.transport.interrupt_status ack;
        };
      } in
      let lowered : LineShows before (lower_idle t) =
        lower_idle-LineShows before t s.transport.interrupt_status l.attached l.shows
          (clear_none s.transport.interrupt_status ack) in
      let e : lower_idle t ≡ s' = cc h₁ in subst (LineShows before) e lowered
  write_at-LineShows Register.device_status s addr bytes s' l h =
      ground (arith, reset-LineShows s l)
  write_at-LineShows _ s addr bytes s' l h = ground arith

  pub write-LineShows :
      (s : Bus D) (addr : ℕ) (bytes : List ℕ) (s' : Bus D)
      → LineShows before s
      → write b dev s addr bytes ≡ ok s'
      → LineShows before s'
  unfolding write
  write-LineShows s addr bytes s' l h = write_at-LineShows (write_register addr) s addr bytes s' l h

  -- Serving the queues clears no pending interrupt.
  tick_queue-keeps :
      (q : VirtioQueue) (i : ℕ) (d : D) (mem : GuestMemory) (pending : ℕ)
      (r : VirtioQueue × D × GuestMemory × ℕ)
      → tick_queue b dev q i d mem pending ≡ ok r
      → r.3 ≡ 0
      → pending ≡ 0
  unfolding tick_queue
  tick_queue-keeps q i d mem pending r h z = ground (arith, or_one_pending pending)

  tick_queues-keeps :
      (qs : List VirtioQueue) (i : ℕ) (d : D) (mem : GuestMemory) (pending : ℕ)
      (r : List VirtioQueue × D × GuestMemory × ℕ)
      → tick_queues b dev qs i d mem pending ≡ ok r
      → r.3 ≡ 0
      → pending ≡ 0
  unfolding tick_queues
  tick_queues-keeps [] i d mem pending r h z = ground arith
  tick_queues-keeps (q ∷ qs) i d mem pending r h z =
      let (r₁, e₁, h₁) = >>=-eq-ok (tick_queue b dev q i d mem pending) _ h in
      let (r₂, e₂, h₂) = >>=-eq-ok (tick_queues b dev qs (i + 1) r₁.1 r₁.2 r₁.3) _ h₁ in
      let e : (r₂.0 ≡ r₂.0) × (r₂.3 ≡ r.3) = (refl, cc h₂) in
      tick_queue-keeps q i d mem pending r₁ e₁
        (tick_queues-keeps qs (i + 1) r₁.1 r₁.2 r₁.3 r₂ e₂ (e.1 ∙ z))

  tick_ready-LineShows :
      (s : Bus D) (s' : Bus D)
      → LineShows before s
      → tick_ready b dev s ≡ ok s'
      → LineShows before s'
  unfolding tick_ready
  tick_ready-LineShows s s' l h =
      let p = s.transport.interrupt_status in
      let (r, e, h₁) =
        >>=-eq-ok (tick_queues b dev s.transport.queues 0 s.transport.device s.mem p) _ h in
      let (u, _, h₂) = >>=-eq-ok (dev.update r.1 r.2 r.0) _ h₁ in
      let t : Bus D = record s {
        transport = record s.transport {
          device = u.1;
          queues = u.3;
          interrupt_status = if u.0 then bit_or r.3 1 else r.3;
        };
        mem = u.2;
      } in
      let keeps : t.transport.interrupt_status ≡ 0 → p ≡ 0 = λ z.
        tick_queues-keeps s.transport.queues 0 s.transport.device s.mem p r e
          (ground (arith, or_one_pending r.3)) in
      let raised : LineShows before (raise_edge (p != 0) t) =
        raise_edge-LineShows before t p l.attached l.shows keeps in
      let e' : raise_edge (p != 0) t ≡ s' = cc h₂ in subst (LineShows before) e' raised

  pub tick-LineShows :
      (s : Bus D) (s' : Bus D) → LineShows before s → tick b dev s ≡ ok s' → LineShows before s'
  unfolding tick
  tick-LineShows s s' l h = ground (arith, tick_ready-LineShows s s' l)

-- ===== src/Virtio/Net/Transmit.antt =====
-- The transmit queue of src/devices/virtio/devices/net.rs: which requests a call of `tick` serves.
use ferrum_vm.Prelude.{
  ℕ, ◌-◌, ◌<◌, ◌≡◌, Bool, true, false, replicate, ok, >>=-eq-ok, Build, u16_mod, ltb, u64_mod,
  add_word, Bool-cases, inl, inr,
}
use ferrum_vm.Memory.{read_guest_memory}
use ferrum_vm.Virtqueue.{get_descriptor, push_used}
use ferrum_vm.Virtqueue.Avail.{HasAvail, advance, driver_idx, ring_entries, pending}
use ferrum_vm.Virtqueue.Used.{returned}
use ferrum_vm.Virtqueue.Loop.{Io}
use ferrum_vm.Virtqueue.Loop.Order.{KeepsRing, for_each, advance-HasAvail, while_avail_order}
use ferrum_vm.Virtqueue.Loop.Rings.{HasRings, answered-KeepsRing, advance-HasRings}
use ferrum_vm.Virtio.Net.{NetVirtio, Tap, transmit, tick, send_packet}

module _ {T : Type 0} (b : Build) (t : Tap T) where
  transmit-KeepsRing :
      (s : Io (NetVirtio T)) (head : ℕ) (w : Bool) (s' : Io (NetVirtio T))
      → HasAvail s.mem s.queue
      → HasRings s.mem s.queue
      → transmit b t s head ≡ ok (w, s')
      → KeepsRing s.mem s.queue s'.mem s'.queue × HasRings s'.mem s'.queue
  unfolding transmit
  transmit-KeepsRing s head w s' v rings h =
      let (desc, found, h₁) = >>=-eq-ok (get_descriptor b s.mem s.queue head) _ h in
      elim (Bool-cases (ltb desc.len 12)) [
        | inl short ↦
            let h₂ = rw short at h₁ in
            let (pushed, e, h₃) = >>=-eq-ok (push_used b s.mem s.queue head 0) _ h₂ in
            answered-KeepsRing b s.mem s.queue head 0 pushed s.device false w s' v rings e h₃
        | inr long ↦
            let h₂ = rw long at h₁ in
            let (frame_addr, e₂, h₃) = >>=-eq-ok (add_word b u64_mod desc.addr 12) _ h₂ in
            let (frame, e₃, h₄) =
              >>=-eq-ok (read_guest_memory b s.mem frame_addr (replicate (desc.len - 12) 0)) _ h₃ in
            let (pushed, e, h₅) = >>=-eq-ok (push_used b s.mem s.queue head desc.len) _ h₄ in
            let sent = (send_packet t s.device.tap_device frame).1 in
            answered-KeepsRing b s.mem s.queue head desc.len pushed
              (record s.device { tap_device = sent }) true w s' v rings e h₅
      ]

  -- The same, after the loop has taken the head.
  pub transmit-keeps :
      (s : Io (NetVirtio T)) (head : ℕ) (w : Bool) (s' : Io (NetVirtio T))
      → HasRings s.mem s.queue
      → HasAvail s.mem s.queue
      → transmit b t (record s { queue = advance s.queue }) head ≡ ok (w, s')
      → HasRings s'.mem s'.queue × KeepsRing s.mem (advance s.queue) s'.mem s'.queue
  transmit-keeps s head w s' rings v returned =
      let (kept, rings') =
        transmit-KeepsRing (record s { queue = advance s.queue }) head w s'
          (advance-HasAvail s.mem s.queue v) (advance-HasRings s.mem s.queue rings) returned in
      (rings', kept)

  -- In both builds, where the available ring and, apart from it, the used ring lie in guest RAM and the
  -- indices are 16-bit words, a call of the network device's tick for the transmit queue with more fuel
  -- than there are pending requests comes to what its body does on exactly those requests: each once and
  -- in the order of the ring, from the queue's index up to the driver's, although each of them
  -- writes to the used ring.
  pub tick_transmit_order :
      (fuel : ℕ) (s : Io (NetVirtio T))
      → s.device.guest_memory ≡ true
      → HasAvail s.mem s.queue
      → HasRings s.mem s.queue
      → s.queue.last_avail_idx < u16_mod
      → driver_idx s.mem s.queue < u16_mod
      → pending s.mem s.queue < fuel
      → tick b t fuel s 1
        ≡ for_each (transmit b t) (ring_entries s.mem s.queue (pending s.mem s.queue)) s false
  unfolding tick
  tick_transmit_order fuel s attached v rings last idx more = simp attached (
      while_avail_order b (transmit b t) (λ s. HasRings s.mem s.queue) transmit-keeps fuel s rings v
        last idx more)

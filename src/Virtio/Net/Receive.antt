-- ===== src/Virtio/Net/Receive.antt =====
-- The receive queue of src/devices/virtio/devices/net.rs: which packets a call of `tick` hands to the
-- guest, and which stay queued.
use ferrum_vm.Prelude.{
  ℕ, suc, ◌+◌, ◌%◌, ◌≤◌, ◌≡◌, ◌≢◌, Bool, false, ◌||◌, Option, none, some, List, [], ◌∷◌, length,
  drop, arith, Result, ok, ◌>>=◌, >>=-eq-ok, Build, u16_mod, Bool-cases, inl, inr,
}
use ferrum_vm.Virtqueue.{VirtioQueue, pop_avail}
use ferrum_vm.Virtqueue.Avail.{Popped, pop_avail-Popped}
use ferrum_vm.Virtqueue.Used.{advance_used, push_used-advances}
use ferrum_vm.Virtqueue.Loop.{Io}
use ferrum_vm.Virtio.Net.{NetVirtio, Tap, deliver, receive, tick, with_tap, add_packet_front}

-- The packets before a call, and the queue before and after it with the packets left.
pub record IsReceived (packets : List (List ℕ)) (q q' : VirtioQueue) (left : List (List ℕ))
    : Type 0 where
  pub consumed : ℕ
  pub bounded : consumed ≤ length packets
  pub suffix : left ≡ drop consumed packets
  pub same_size : q'.size ≡ q.size
  pub taken : q'.last_avail_idx % u16_mod ≡ (q.last_avail_idx + consumed) % u16_mod
  pub returned : q'.last_used_idx % u16_mod ≡ (q.last_used_idx + consumed) % u16_mod

IsReceived-none :
    (packets : List (List ℕ)) {q q' : VirtioQueue} {left : List (List ℕ)}
    → q' ≡ q
    → left ≡ packets
    → IsReceived packets q q' left
IsReceived-none packets e l = record {
  consumed = 0;
  bounded = omega arith;
  suffix = l;
  same_size = ground arith;
  taken = ground arith;
  returned = ground arith;
}

module _ {T : Type 0} (b : Build) (t : Tap T) where
  deliver_advances :
      (s : Io (NetVirtio T)) (frame : List ℕ) (head : ℕ) (w : Bool) (s' : Io (NetVirtio T))
      → s.queue.size ≢ 0
      → deliver b t s frame head ≡ ok (w, s')
      → s'.queue ≡ advance_used s.queue
  unfolding deliver
  deliver_advances s frame head w s' pos h = grind (arith, push_used-advances)

  receive-IsReceived :
      (packets : List (List ℕ)) (s : Io (NetVirtio T)) (did w : Bool) (s' : Io (NetVirtio T))
      → receive b t packets s did ≡ ok (w, s')
      → IsReceived packets s.queue s'.queue s'.device.tap_device.packet_recive_queue
  unfolding receive
  receive-IsReceived [] s did w s' h = IsReceived-none [] (ground arith) (ground arith)
  receive-IsReceived (frame ∷ rest) s did w s' h =
      let (r, e, h₁) = >>=-eq-ok (pop_avail b s.mem s.queue) _ h in
      entries (receive-IsReceived rest) r.0 r.1 (pop_avail-Popped b s.mem s.queue r.0 r.1 e) h₁
    where
      without : Io (NetVirtio T)
      without = with_tap s (record s.device.tap_device { packet_recive_queue = rest })

      entries :
          ((p : Io (NetVirtio T)) (d v : Bool) (p' : Io (NetVirtio T))
            → receive b t rest p d ≡ ok (v, p')
            → IsReceived rest p.queue p'.queue p'.device.tap_device.packet_recive_queue)
          → (popped : Option ℕ) (q : VirtioQueue) → Popped s.queue popped q
          → ◌≡◌ {A = Result (Bool × Io (NetVirtio T))}
              (elim popped [
                | none ↦ ok (
                  did,
                  with_tap
                      (record without { queue = q })
                      (add_packet_front without.device.tap_device frame),
                )
                | some head ↦ (do
                  p ← deliver b t (record without { queue = q }) frame head
                  receive b t rest p.1 (did || p.0))
              ])
              (ok (w, s'))
          → IsReceived (frame ∷ rest) s.queue s'.queue s'.device.tap_device.packet_recive_queue
      entries ih none q p h₁ =
          IsReceived-none (frame ∷ rest) (ground arith) (unfold add_packet_front in ground arith)
      entries ih (some head) q p h₁ =
          let u = record without { queue = q } in
          let (r, e, h₂) = >>=-eq-ok (deliver b t u frame head) _ h₁ in
          let answered : r.1.queue ≡ advance_used q =
            deliver_advances u frame head r.0 r.1 (rw p.1 p.0) e in
          let more = ih r.1 (did || r.0) w s' h₂ in
          record {
            consumed = suc more.consumed;
            bounded = omega (arith, more.bounded);
            suffix = more.suffix;
            same_size = ground (arith, more.same_size);
            taken = ground (arith, more.taken);
            returned = ground (arith, more.returned);
          }

  -- A call of `tick` for the receive queue that returns consumes packets from the front of the packet
  -- queue only: those left are the rest of it, in their order, and for each packet consumed one entry
  -- of the virtqueue was taken and returned.
  pub tick_receive-IsReceived :
      (fuel : ℕ) (s : Io (NetVirtio T)) (w : Bool) (s' : Io (NetVirtio T))
      → tick b t fuel s 0 ≡ ok (w, s')
      → IsReceived s.device.tap_device.packet_recive_queue s.queue s'.queue
          s'.device.tap_device.packet_recive_queue
  unfolding tick
  tick_receive-IsReceived fuel s w s' h = elim (Bool-cases s.device.guest_memory) [
    | inl e ↦ receive-IsReceived s.device.tap_device.packet_recive_queue s false w s' (ground arith)
    | inr e ↦ IsReceived-none _ (ground arith) (ground arith)
  ]

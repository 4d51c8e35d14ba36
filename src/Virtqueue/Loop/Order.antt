-- ===== src/Virtqueue/Loop/Order.antt =====
-- The loop over the available ring runs its body on the pending entries, in their order.
use ferrum_vm.Prelude.{
  ℕ, zero, suc, ◌+◌, ◌<◌, ◌≡◌, refl, ap, ◌∙◌, ◌%◌, Bool, false, ◌||◌, List, [], ◌∷◌, arith, Result,
  ok, panic, no_fuel, ◌>>=◌, Build, u16_mod, ==_iff, ==_of_ne,
}
use ferrum_vm.Memory.{GuestMemory}
use ferrum_vm.Virtqueue.{VirtioQueue}
use ferrum_vm.Virtqueue.Avail.{
  HasAvail, advance, driver_idx, ring_entry, ring_entries, pending, pop_avail_lem,
}
use ferrum_vm.Virtqueue.Loop.{Io, while_avail}

-- The body on each head of the list, the queue's index moved past its entry before.
unfoldable pub for_each :
    {D : Type 0} → (Io D → ℕ → Result (Bool × Io D)) → List ℕ → Io D → Bool → Result (Bool × Io D)
for_each body [] s did = ok (did, s)
for_each body (head ∷ heads) s did = do
  (worked, s') ← body (record s { queue = advance s.queue }) head
  for_each body heads s' (did || worked)

-- The available ring of a queue is as it was, and so is the queue's index into it.
pub record KeepsRing (mem : GuestMemory) (q : VirtioQueue) (mem' : GuestMemory) (q' : VirtioQueue)
    : Type 0 where
  pub same_size : q'.size ≡ q.size
  pub same_index : q'.last_avail_idx ≡ q.last_avail_idx
  pub same_driver : driver_idx mem' q' ≡ driver_idx mem q
  pub same_entries : (idx : ℕ) → ring_entry mem' q' idx ≡ ring_entry mem q idx
  pub ring : HasAvail mem' q'

pub advance-HasAvail :
    (mem : GuestMemory) (q : VirtioQueue) → HasAvail mem q → HasAvail mem (advance q)
advance-HasAvail mem q v = record {
  size_pos = v.size_pos;
  in_space = v.in_space;
  idx_backed = v.idx_backed;
  slot_backed = v.slot_backed;
}

advance-KeepsRing :
    (mem : GuestMemory) (q : VirtioQueue) (mem' : GuestMemory) (q' : VirtioQueue)
    → KeepsRing mem q mem' q'
    → KeepsRing mem (advance q) mem' (advance q')
advance-KeepsRing mem q mem' q' k = record {
  same_size = k.same_size;
  same_index = ap (λ i. (i + 1) % u16_mod) k.same_index;
  same_driver = k.same_driver;
  same_entries = k.same_entries;
  ring = advance-HasAvail mem' q' k.ring;
}

ring_entries-KeepsRing :
    (n : ℕ) (mem : GuestMemory) (q : VirtioQueue) (mem' : GuestMemory) (q' : VirtioQueue)
    → KeepsRing mem q mem' q'
    → ring_entries mem' q' n ≡ ring_entries mem q n
ring_entries-KeepsRing zero mem q mem' q' k = refl
ring_entries-KeepsRing (suc n) mem q mem' q' k =
    let head : ring_entry mem' q' q'.last_avail_idx ≡ ring_entry mem q q.last_avail_idx =
      k.same_entries q'.last_avail_idx ∙ ap (ring_entry mem q) k.same_index in
    let rest =
      ring_entries-KeepsRing n mem (advance q) mem' (advance q')
        (advance-KeepsRing mem q mem' q' k) in
    ap (λ h. h ∷ ring_entries mem' (advance q') n) head
    ∙ ap (λ hs. ring_entry mem q q.last_avail_idx ∷ hs) rest

module _ {D : Type 0} (b : Build) (body : Io D → ℕ → Result (Bool × Io D)) (P : Io D → Type 0)
    (keeps : (s : Io D) (head : ℕ) (w : Bool) (s' : Io D)
      → P s
      → HasAvail s.mem s.queue
      → body (record s { queue = advance s.queue }) head ≡ ok (w, s')
      → P s' × KeepsRing s.mem (advance s.queue) s'.mem s'.queue) where
  while_avail_from :
      (n fuel : ℕ) (s : Io D) (did : Bool)
      → P s
      → HasAvail s.mem s.queue
      → s.queue.last_avail_idx < u16_mod
      → driver_idx s.mem s.queue < u16_mod
      → pending s.mem s.queue ≡ n
      → n < fuel
      → while_avail b fuel body s did ≡ for_each body (ring_entries s.mem s.queue n) s did
  unfolding while_avail for_each
  while_avail_from n zero s did p v last idx e more = elim more [ ]
  while_avail_from zero (suc fuel) s did p v last idx e more =
      let same : s.queue.last_avail_idx ≡ driver_idx s.mem s.queue = omega arith in
      rw (pop_avail_lem b s.mem s.queue v) (rw ((==_iff _ _).1 same) refl)
  while_avail_from (suc n) (suc fuel) s did p v last idx e more =
      let head = ring_entry s.mem s.queue s.queue.last_avail_idx in
      rw
        (
          pop_avail_lem b s.mem s.queue v,
          ==_of_ne s.queue.last_avail_idx (driver_idx s.mem s.queue) (omega arith),
        )
        (through (λ s' d p' v' l' i' e'. while_avail_from n fuel s' d p' v' l' i' e' (omega arith))
          (body (record s { queue = advance s.queue }) head) refl)
    where
      through :
          ((s' : Io D) (d : Bool)
            → P s'
            → HasAvail s'.mem s'.queue
            → s'.queue.last_avail_idx < u16_mod
            → driver_idx s'.mem s'.queue < u16_mod
            → pending s'.mem s'.queue ≡ n
            → while_avail b fuel body s' d ≡ for_each body (ring_entries s'.mem s'.queue n) s' d)
          → (r : Result (Bool × Io D))
          → body
              (record s { queue = advance s.queue })
              (ring_entry s.mem s.queue s.queue.last_avail_idx)
            ≡ r
          → (r >>= λ p. while_avail b fuel body p.1 (did || p.0))
            ≡ (r >>= λ p. for_each body (ring_entries s.mem (advance s.queue) n) p.1 (did || p.0))
      through ih (ok (w, s')) returned =
          let (p', k) = keeps s _ w s' p v returned in
          let moved = k.same_index in
          let driver = k.same_driver in
          ih s' (did || w) p' k.ring (omega arith) (omega arith) (omega arith)
          ∙ ap (λ heads. for_each body heads s' (did || w))
              (ring_entries-KeepsRing n s.mem (advance s.queue) s'.mem s'.queue k)
      through ih panic returned = refl
      through ih no_fuel returned = refl

  -- In both builds, on a ring in guest RAM whose indices are 16-bit words, and for a body that, where it
  -- returns, leaves the available ring and the queue's index into it as they are (and keeps what it
  -- needs for this, `P`), the loop with more fuel than there are pending entries does what the body does
  -- on exactly those entries: each once, in the order of the ring, from the queue's index up to the
  -- driver's. It runs out of fuel only where the body itself does.
  pub while_avail_order :
      (fuel : ℕ) (s : Io D)
      → P s
      → HasAvail s.mem s.queue
      → s.queue.last_avail_idx < u16_mod
      → driver_idx s.mem s.queue < u16_mod
      → pending s.mem s.queue < fuel
      → while_avail b fuel body s false
        ≡ for_each body (ring_entries s.mem s.queue (pending s.mem s.queue)) s false
  while_avail_order fuel s p v last idx more =
      while_avail_from (pending s.mem s.queue) fuel s false p v last idx refl more

-- ===== src/Virtio/Blk/Batch.antt =====
-- What one call of `tick` of src/devices/virtio/devices/blk.rs does to its queue.
use ferrum_vm.Prelude.{
  ℕ, zero, suc, ◌+◌, ◌%◌, ◌≤◌, ◌≡◌, ◌≢◌, Bool, false, not, ◌||◌, Option, none, some, arith, Result,
  ok, ◌>>=◌, >>=-eq-ok, Build, u16_mod, ◌!=◌, Bool-cases, inl, inr,
}
use ferrum_vm.Virtqueue.{VirtioQueue, VirtqDesc, pop_avail}
use ferrum_vm.Virtqueue.Avail.{Popped, pop_avail-Popped}
use ferrum_vm.Virtqueue.Used.{advance_used, push_used-advances}
use ferrum_vm.Virtqueue.Loop.{Io}
use ferrum_vm.Virtqueue.Loop.Balance.{AnswersOne}
use ferrum_vm.Virtio.Blk.{
  BlkVirtio, BlockFile, BlkRequest, finish, read_sectors, write_sectors, serve, batch, tick,
  max_batch,
}

-- The queue after at most `left` entries were taken and each was returned.
pub record IsBatch (left : ℕ) (q q' : VirtioQueue) : Type 0 where
  pub served : ℕ
  pub bounded : served ≤ left
  pub same_size : q'.size ≡ q.size
  pub taken : q'.last_avail_idx % u16_mod ≡ (q.last_avail_idx + served) % u16_mod
  pub returned : q'.last_used_idx % u16_mod ≡ (q.last_used_idx + served) % u16_mod

IsBatch-none : (left : ℕ) {q q' : VirtioQueue} → q' ≡ q → IsBatch left q q'
IsBatch-none left e = record {
  served = 0;
  bounded = omega arith;
  same_size = ground arith;
  taken = ground arith;
  returned = ground arith;
}

module _ {F : Type 0} (b : Build) where
  finish_advances :
      (s : Io (BlkVirtio F)) (head len : ℕ) (done w : Bool) (s' : Io (BlkVirtio F))
      → s.queue.size ≢ 0
      → finish b s head len done ≡ ok (w, s')
      → s'.queue ≡ advance_used s.queue
  unfolding finish
  finish_advances s head len done w s' pos h = grind (arith, push_used-advances)

module _ {F : Type 0} (b : Build) (file : BlockFile F) where
  read_sectors_advances :
      (s : Io (BlkVirtio F)) (head : ℕ) (r : BlkRequest) (d t : VirtqDesc) (w : Bool)
      (s' : Io (BlkVirtio F))
      → s.queue.size ≢ 0
      → read_sectors b file s head r d t ≡ ok (w, s')
      → s'.queue ≡ advance_used s.queue
  unfolding read_sectors
  read_sectors_advances s head r d t w s' pos h = grind (arith, finish_advances)

  write_sectors_advances :
      (s : Io (BlkVirtio F)) (head : ℕ) (r : BlkRequest) (d t : VirtqDesc) (w : Bool)
      (s' : Io (BlkVirtio F))
      → s.queue.size ≢ 0
      → write_sectors b file s head r d t ≡ ok (w, s')
      → s'.queue ≡ advance_used s.queue
  unfolding write_sectors
  write_sectors_advances s head r d t w s' pos h = grind (arith, finish_advances)

  serve-AnswersOne : AnswersOne (serve b file)
  unfolding serve
  serve-AnswersOne s head w s' pos h =
      grind (arith, finish_advances, read_sectors_advances, write_sectors_advances)

  batch-IsBatch :
      (left : ℕ) (s : Io (BlkVirtio F)) (did w : Bool) (s' : Io (BlkVirtio F))
      → batch b file left s did ≡ ok (w, s')
      → IsBatch left s.queue s'.queue
  unfolding batch
  batch-IsBatch zero s did w s' h = IsBatch-none 0 (ground arith)
  batch-IsBatch (suc left) s did w s' h =
      let (r, e, h₁) = >>=-eq-ok (pop_avail b s.mem s.queue) _ h in
      entries (batch-IsBatch left) r.0 r.1 (pop_avail-Popped b s.mem s.queue r.0 r.1 e) h₁
    where
      entries :
          ((t : Io (BlkVirtio F)) (d v : Bool) (t' : Io (BlkVirtio F))
            → batch b file left t d ≡ ok (v, t')
            → IsBatch left t.queue t'.queue)
          → (popped : Option ℕ) (q : VirtioQueue) → Popped s.queue popped q
          → ◌≡◌ {A = Result (Bool × Io (BlkVirtio F))}
              (elim popped [
                | none ↦ ok (did, record s { queue = q })
                | some head ↦ (do
                  p ← serve b file (record s { queue = q }) head
                  batch b file left p.1 (did || p.0))
              ])
              (ok (w, s'))
          → IsBatch (suc left) s.queue s'.queue
      entries ih none q p h₁ = IsBatch-none (suc left) (ground arith)
      entries ih (some head) q p h₁ =
          let t = record s { queue = q } in
          let (r, e, h₂) = >>=-eq-ok (serve b file t head) _ h₁ in
          let answered : r.1.queue ≡ advance_used q =
            serve-AnswersOne t head r.0 r.1 (rw p.1 p.0) e in
          let rest = ih r.1 (did || r.0) w s' h₂ in
          record {
            served = suc rest.served;
            bounded = omega (arith, rest.bounded);
            same_size = ground (arith, rest.same_size);
            taken = ground (arith, rest.taken);
            returned = ground (arith, rest.returned);
          }

  -- A call of `tick` that returns has taken at most 64 entries from the queue and returned every one
  -- of them on the used ring, refused and failed requests included: both indices advance by the same
  -- number, at most 64, whatever guest RAM holds and however the image behaves.
  pub tick-IsBatch :
      (s : Io (BlkVirtio F)) (queue_sel : ℕ) (w : Bool) (s' : Io (BlkVirtio F))
      → tick b file s queue_sel ≡ ok (w, s')
      → IsBatch max_batch s.queue s'.queue
  unfolding tick
  tick-IsBatch s queue_sel w s' h =
      elim (Bool-cases (queue_sel != 0 || not s.device.guest_memory)) [
        | inl e ↦ IsBatch-none max_batch (ground arith)
        | inr e ↦ batch-IsBatch max_batch s false w s' (ground arith)
      ]

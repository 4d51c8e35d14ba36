-- ===== src/Virtio/Fs/Chain.antt =====
-- The chains that the file system device walks (src/devices/virtio/devices/fs.rs).
use ferrum_vm.Prelude.{
  ℕ, zero, suc, ◌<◌, ◌≡◌, ◌≢◌, refl, ap, ◌∙◌, bit_and, Bool, true, false, List, [], ◌++◌, replicate,
  ◌==◌, ◌!=◌, arith, ok, no_fuel, Build, append-nil, append_assoc, sym,
}
use ferrum_vm.Memory.{GuestMemory, read_guest_memory}
use ferrum_vm.Virtqueue.{VirtioQueue, VirtqDesc, get_descriptor}
use ferrum_vm.Virtqueue.Used.{advance_used, push_used-advances}
use ferrum_vm.Virtqueue.Loop.{Io}
use ferrum_vm.Virtqueue.Loop.Balance.{
  IsBalanced, IsBalanced-refl, AnswersOne, while_avail-IsBalanced,
}
use ferrum_vm.SharedFolder.Host.{HostFs}
use ferrum_vm.Virtio.Fs.{FsVirtio, collect_from, collect_readable, retire, hiprio, request, tick}

module _ (b : Build) (mem : GuestMemory) (q : VirtioQueue) where
  -- The readable descriptors of a chain from a descriptor on, their number, and the bytes they name.
  pub data Readable : ℕ → VirtqDesc → List ℕ → Type 0 where
    writable : (desc : VirtqDesc) → bit_and desc.flags 2 ≢ 0 → Readable 0 desc []
    last :
        (desc : VirtqDesc) (buf : List ℕ)
        → bit_and desc.flags 2 ≡ 0
        → bit_and desc.flags 1 ≡ 0
        → read_guest_memory b mem desc.addr (replicate desc.len 0) ≡ ok buf
        → Readable 1 desc buf
    link :
        (n : ℕ) (desc next : VirtqDesc) (buf bytes : List ℕ)
        → bit_and desc.flags 2 ≡ 0
        → bit_and desc.flags 1 ≢ 0
        → read_guest_memory b mem desc.addr (replicate desc.len 0) ≡ ok buf
        → get_descriptor b mem q desc.next ≡ ok next
        → Readable n next bytes
        → Readable (suc n) desc (buf ++ bytes)

  collect_from-Readable :
      (n : ℕ) (desc : VirtqDesc) (bytes acc : List ℕ) (fuel : ℕ)
      → Readable n desc bytes
      → n < fuel
      → collect_from b mem q fuel desc acc ≡ ok (acc ++ bytes)
  unfolding collect_from
  collect_from-Readable n desc bytes acc zero r few = elim few [ ]
  collect_from-Readable _ _ _ acc (suc fuel) (writable desc w) few =
      let is : (bit_and desc.flags 2 != 0) ≡ true = ground (arith, w) in
      rw (append-nil acc, collect_from, is) refl
  collect_from-Readable _ _ _ acc (suc fuel) (last desc buf ro no_more got) few =
      let is : (bit_and desc.flags 2 != 0) ≡ false = ground (arith, ro) in
      let ends : (bit_and desc.flags 1 == 0) ≡ true = ground (arith, no_more) in
      rw (collect_from, is, got, ends) refl
  collect_from-Readable _ _ _ acc (suc fuel) (link n desc next buf bytes ro more got step r) few =
      let is : (bit_and desc.flags 2 != 0) ≡ false = ground (arith, ro) in
      let goes_on : (bit_and desc.flags 1 == 0) ≡ false = ground (arith, more) in
      rw (collect_from, is, got, goes_on, step, sym (append_assoc acc buf bytes))
        (collect_from-Readable n next bytes (acc ++ buf) fuel r (omega arith))

  -- In both builds, the walk over a chain of `n` readable descriptors that ends, or meets a writable
  -- one, ends within `n + 1` rounds and gathers their bytes in order.
  pub collect_readable-Readable :
      (n head : ℕ) (desc : VirtqDesc) (bytes : List ℕ) (fuel : ℕ)
      → get_descriptor b mem q head ≡ ok desc
      → Readable n desc bytes
      → n < fuel
      → collect_readable b fuel mem q head ≡ ok bytes
  unfolding collect_readable
  collect_readable-Readable n head desc bytes fuel e r few =
      rw e (collect_from-Readable n desc bytes [] fuel r few)

  circular_from :
      (desc : VirtqDesc) (buf acc : List ℕ) (fuel : ℕ)
      → bit_and desc.flags 2 ≡ 0
      → bit_and desc.flags 1 ≢ 0
      → read_guest_memory b mem desc.addr (replicate desc.len 0) ≡ ok buf
      → get_descriptor b mem q desc.next ≡ ok desc
      → collect_from b mem q fuel desc acc ≡ no_fuel
  unfolding collect_from
  circular_from desc buf acc zero ro more got step = refl
  circular_from desc buf acc (suc fuel) ro more got step =
      let is : (bit_and desc.flags 2 != 0) ≡ false = ground (arith, ro) in
      let goes_on : (bit_and desc.flags 1 == 0) ≡ false = ground (arith, more) in
      rw (collect_from, is, got, goes_on, step)
        (circular_from desc buf (acc ++ buf) fuel ro more got step)

  -- In both builds, the walk over a readable descriptor that names itself as the next one never ends:
  -- it is not done after any number of rounds.
  pub collect_readable_circular :
      (head : ℕ) (desc : VirtqDesc) (buf : List ℕ) (fuel : ℕ)
      → get_descriptor b mem q head ≡ ok desc
      → desc.next ≡ head
      → bit_and desc.flags 2 ≡ 0
      → bit_and desc.flags 1 ≢ 0
      → read_guest_memory b mem desc.addr (replicate desc.len 0) ≡ ok buf
      → collect_readable b fuel mem q head ≡ no_fuel
  unfolding collect_readable
  collect_readable_circular head desc buf fuel e itself ro more got =
      rw e (circular_from desc buf [] fuel ro more got (ap (get_descriptor b mem q) itself ∙ e))

module _ {P F H : Type 0} (b : Build) (os : HostFs P F H) (fuel : ℕ) where
  retire_advances :
      (s : Io (FsVirtio P F H)) (head : ℕ) (w : Bool) (s' : Io (FsVirtio P F H))
      → s.queue.size ≢ 0
      → retire b os fuel s head ≡ ok (w, s')
      → s'.queue ≡ advance_used s.queue
  unfolding retire
  retire_advances s head w s' pos h = grind (arith, push_used-advances)

  hiprio-AnswersOne : AnswersOne (hiprio b os fuel)
  unfolding hiprio
  hiprio-AnswersOne s head w s' pos h = grind (arith, retire_advances)

  request-AnswersOne : AnswersOne (request b os fuel)
  unfolding request
  request-AnswersOne s head w s' pos h = grind (arith, retire_advances)

  -- Every request of either queue that a call of `tick` that returns takes it returns on the used ring:
  -- both indices advance by the same amount, for any content of guest RAM and any host.
  pub fs_tick-IsBalanced :
      (s : Io (FsVirtio P F H)) (queue_sel : ℕ) (w : Bool) (s' : Io (FsVirtio P F H))
      → tick b os fuel s queue_sel ≡ ok (w, s')
      → IsBalanced s.queue s'.queue
  unfolding tick
  fs_tick-IsBalanced s queue_sel w s' h = grind (
    arith,
    while_avail-IsBalanced b (hiprio b os fuel) hiprio-AnswersOne fuel s false w s',
    while_avail-IsBalanced b (request b os fuel) request-AnswersOne fuel s false w s',
    IsBalanced-refl s.queue,
  )

-- ===== src/Virtqueue/Loop/Balance.antt =====
-- Every entry taken from the available ring is returned on the used ring.
use ferrum_vm.Prelude.{
  ℕ, zero, suc, ◌+◌, ◌%◌, ◌≡◌, ◌≢◌, Bool, ◌||◌, Option, none, some, arith, Result, ok, ◌>>=◌,
  >>=-eq-ok, Build, u16_mod,
}
use ferrum_vm.Virtqueue.{VirtioQueue, pop_avail}
use ferrum_vm.Virtqueue.Avail.{Popped, pop_avail-Popped, advance}
use ferrum_vm.Virtqueue.Used.{advance_used}
use ferrum_vm.Virtqueue.Loop.{Io, while_avail}

-- As many entries were returned as were taken, modulo the wrap of the 16-bit indices.
pub record IsBalanced (q q' : VirtioQueue) : Type 0 where
  pub same_size : q'.size ≡ q.size
  pub balance :
      (q'.last_used_idx + q.last_avail_idx) % u16_mod
      ≡ (q.last_used_idx + q'.last_avail_idx) % u16_mod

pub IsBalanced-refl : (q : VirtioQueue) → IsBalanced q q
IsBalanced-refl q = omega arith

pub IsBalanced-trans : {p q r : VirtioQueue} → IsBalanced p q → IsBalanced q r → IsBalanced p r
IsBalanced-trans h k = omega arith

-- One entry taken and returned.
pub IsBalanced-one : (q : VirtioQueue) → IsBalanced q (advance_used (advance q))
IsBalanced-one q = omega arith

-- The body, where it returns, has returned one entry and done nothing else to the queue.
abbrev pub AnswersOne : {D : Type 0} → (Io D → ℕ → Result (Bool × Io D)) → Type 0
AnswersOne {D} body =
    (s : Io D) (head : ℕ) (w : Bool) (s' : Io D)
    → s.queue.size ≢ 0
    → body s head ≡ ok (w, s')
    → s'.queue ≡ advance_used s.queue

module _ {D : Type 0} (b : Build) (body : Io D → ℕ → Result (Bool × Io D))
    (one : AnswersOne body) where
  pub while_avail-IsBalanced :
      (fuel : ℕ) (s : Io D) (did : Bool) (w : Bool) (s' : Io D)
      → while_avail b fuel body s did ≡ ok (w, s')
      → IsBalanced s.queue s'.queue
  unfolding while_avail
  while_avail-IsBalanced zero s did w s' h = cc
  while_avail-IsBalanced (suc fuel) s did w s' h =
      let (r, e, h₁) = >>=-eq-ok (pop_avail b s.mem s.queue) _ h in
      taken (while_avail-IsBalanced fuel) r.0 r.1 (pop_avail-Popped b s.mem s.queue r.0 r.1 e) h₁
    where
      taken :
          ((t : Io D) (d v : Bool) (t' : Io D)
            → while_avail b fuel body t d ≡ ok (v, t')
            → IsBalanced t.queue t'.queue)
          → (popped : Option ℕ) (q : VirtioQueue) → Popped s.queue popped q
          → ◌≡◌ {A = Result (Bool × Io D)}
              (elim popped [
                | none ↦ ok (did, record s { queue = q })
                | some head ↦ (do
                  p ← body (record s { queue = q }) head
                  while_avail b fuel body p.1 (did || p.0))
              ])
              (ok (w, s'))
          → IsBalanced s.queue s'.queue
      taken ih none q p h₁ = ground arith
      taken ih (some head) q p h₁ =
          let t = record s { queue = q } in
          let (r, e, h₂) = >>=-eq-ok (body t head) _ h₁ in
          let answered : r.1.queue ≡ advance_used q = one t head r.0 r.1 (rw p.1 p.0) e in
          let first : IsBalanced s.queue r.1.queue = rw (answered, p.1) (IsBalanced-one s.queue) in
          IsBalanced-trans first (ih r.1 (did || r.0) w s' h₂)

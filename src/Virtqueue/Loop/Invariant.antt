-- ===== src/Virtqueue/Loop/Invariant.antt =====
-- What every round of the loop over the available ring keeps, the loop keeps.
use ferrum_vm.Prelude.{
  ℕ, zero, suc, ◌≡◌, Bool, ◌||◌, Option, none, some, Result, ok, ◌>>=◌, >>=-eq-ok, Build, subst,
}
use ferrum_vm.Virtqueue.{VirtioQueue, pop_avail}
use ferrum_vm.Virtqueue.Loop.{Io, while_avail}

-- A property of the device's own state that a round, where it returns, keeps.
abbrev pub Keeps : {D : Type 0} → (D → Type 0) → (Io D → ℕ → Result (Bool × Io D)) → Type 0
Keeps {D} P body =
    (s : Io D) (head : ℕ) (w : Bool) (s' : Io D)
    → P s.device
    → body s head ≡ ok (w, s')
    → P s'.device

module _ {D : Type 0} (P : D → Type 0) (b : Build) (body : Io D → ℕ → Result (Bool × Io D))
    (keeps : Keeps P body) where
  pub while_avail-Keeps :
      (fuel : ℕ) (s : Io D) (did w : Bool) (s' : Io D)
      → P s.device
      → while_avail b fuel body s did ≡ ok (w, s')
      → P s'.device
  unfolding while_avail
  while_avail-Keeps zero s did w s' p h = cc
  while_avail-Keeps (suc fuel) s did w s' p h =
      let (r, e, h₁) = >>=-eq-ok (pop_avail b s.mem s.queue) _ h in
      taken (while_avail-Keeps fuel) r.0 r.1 h₁
    where
      taken :
          ((t : Io D) (d v : Bool) (t' : Io D)
            → P t.device
            → while_avail b fuel body t d ≡ ok (v, t')
            → P t'.device)
          → (popped : Option ℕ) (q : VirtioQueue)
          → ◌≡◌ {A = Result (Bool × Io D)}
              (elim popped [
                | none ↦ ok (did, record s { queue = q })
                | some head ↦ (do
                  p ← body (record s { queue = q }) head
                  while_avail b fuel body p.1 (did || p.0))
              ])
              (ok (w, s'))
          → P s'.device
      taken ih none q h₁ =
          let same : record s { queue = q } ≡ s' = cc in subst (λ (t : Io D). P t.device) same p
      taken ih (some head) q h₁ =
          let (r, e, h₂) = >>=-eq-ok (body (record s { queue = q }) head) _ h₁ in
          ih r.1 _ w s' (keeps (record s { queue = q }) head r.0 r.1 p e) h₂

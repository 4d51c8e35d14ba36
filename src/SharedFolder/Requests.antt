-- ===== src/SharedFolder/Requests.antt =====
-- The requests of the FUSE server and its tables (src/platform/shared_folder/core.rs).
use ferrum_vm.Prelude.{
  ℕ, zero, suc, ◌+◌, ◌≡◌, ◌≢◌, refl, subst, false, List, [], length, take, drop, ltb, ◌==◌,
  if◌then◌else◌, arith, Result, ok, panic, no_fuel, debug, Bool-cases, inl, inr, ◌⊎◌,
}
use ferrum_vm.Prelude.HashMap
use ferrum_vm.Prelude.HashMap.{get-insert, get-remove}
use ferrum_vm.Prelude.Bytes.{from_le}
use ferrum_vm.SharedFolder.Host.{HostFs, enosys}
use ferrum_vm.SharedFolder.{SharedFolder, new}
use ferrum_vm.SharedFolder.Handlers.{
  Outcome, done, errno, Handler, ◌>>=◌, resume, pure, fail, u32_at,
}
use ferrum_vm.SharedFolder.Wire.{FuseInHeader}
use ferrum_vm.SharedFolder.Node.{stat_fs}
use ferrum_vm.SharedFolder.Core.{dispatch, batch_forget, forget_each, remove_inode, forget}
use ferrum_vm.SharedFolder.Keeps.{
  IsFresh, Extends, Keeps, Keeps-pure, Keeps-fail, Keeps-u32_at, keeps_rules,
}
use ferrum_vm.SharedFolder.Tables.{request_rules}

module _ {P F H : Type 0} (os : HostFs P F H) where
  Keeps-stat_fs : Keeps (stat_fs debug os)
  unfolding stat_fs
  Keeps-stat_fs = search keeps_rules

  Keeps-dispatch :
      (header : FuseInHeader) (body : List ℕ)
      → header.opcode ≢ 42
      → Keeps (dispatch debug os header body)
  unfolding dispatch
  Keeps-dispatch header body other =
      let is : (header.opcode == 42) ≡ false = ground (arith, other) in
      let last : Keeps {P = P} {F = F} {H = H}
          (if header.opcode == 42 then batch_forget body else fail enosys) =
        rw is (Keeps-fail enosys) in
      search (request_rules, Keeps-stat_fs) depth 40

  removed-IsFresh :
      (s : SharedFolder P F H) (n : ℕ)
      → IsFresh s
      → IsFresh (record s { inodes = HashMap.remove s.inodes n })
  removed-IsFresh s n h = record {
    nodes = λ k p q. grind (arith, get-remove s.inodes n k, h.nodes k p);
    files = h.files;
  }

  forget_each-IsFresh :
      (body : List ℕ) (left offset : ℕ) (s : SharedFolder P F H) (o : Outcome (Unit {0}))
      (s' : SharedFolder P F H)
      → forget_each body left offset s ≡ ok (o, s')
      → IsFresh s
      → IsFresh s'
  unfolding forget_each remove_inode pure ◌>>=◌
  forget_each-IsFresh body zero offset s o s' h g =
      let same : s ≡ s' = cc in subst (λ u. IsFresh u) same g
  forget_each-IsFresh body (suc left) offset s o s' h g =
      elim (Bool-cases (ltb (length body) (offset + 8))) [
        | inl past ↦
            let same : s ≡ s' = cc (rw (forget_each, past) at h) in subst (λ u. IsFresh u) same g
        | inr inside ↦
            let n = from_le (take 8 (drop offset body)) in
            forget_each-IsFresh body left (offset + 16)
              (record s { inodes = HashMap.remove s.inodes n }) o s' (rw (forget_each, inside) at h)
              (removed-IsFresh s n g)
      ]

  -- How a chain that returned went: through both steps, or only the first, which failed.
  bind-cases :
      {A B : Type 0} (m : Handler (SharedFolder P F H) A) (f : A → Handler (SharedFolder P F H) B)
      (s : SharedFolder P F H) (o : Outcome B) (s' : SharedFolder P F H)
      → (m >>= f) s ≡ ok (o, s')
      → ((a : A) × (t : SharedFolder P F H) × (m s ≡ ok (done a, t)) × (f a t ≡ ok (o, s')))
        ⊎ ((e : ℕ) × (m s ≡ ok (errno e, s')))
  unfolding ◌>>=◌
  bind-cases {A} {B} m f s o s' h = from (m s) h
    where
      from :
          (r : Result (Outcome A × SharedFolder P F H))
          → ◌≡◌ {A = Result (Outcome B × SharedFolder P F H)}
              (elim r [ ok r ↦ resume f r | panic ↦ panic | no_fuel ↦ no_fuel ])
              (ok (o, s'))
          → ((a : A) × (t : SharedFolder P F H) × (r ≡ ok (done a, t)) × (f a t ≡ ok (o, s')))
            ⊎ ((e : ℕ) × (r ≡ ok (errno e, s')))
      from (ok (done a, t)) h = inl (a, t, refl, h)
      from (ok (errno e, t)) h = inr (e, cc)
      from panic h = cc
      from no_fuel h = cc

  batch_forget-IsFresh :
      (body : List ℕ) (s : SharedFolder P F H) (o : Outcome (List ℕ)) (s' : SharedFolder P F H)
      → batch_forget body s ≡ ok (o, s')
      → IsFresh s
      → IsFresh s'
  unfolding batch_forget
  batch_forget-IsFresh body s o s' h g = elim (bind-cases (u32_at body 0) _ s o s' h) [
    | inl (count, t, e, h₁) ↦
        let (fresh, old) = (Keeps-u32_at body 0).at s (done count) t e g in
        elim (bind-cases (forget_each body count 8) _ t o s' h₁) [
          | inl (u, t', e', h₂) ↦
              ((Keeps-pure []).at t' o s' h₂
                (forget_each-IsFresh body count 8 t (done u) t' e' fresh)).0
          | inr (k, e') ↦ forget_each-IsFresh body count 8 t (errno k) s' e' fresh
        ]
    | inr (k, e) ↦ ((Keeps-u32_at body 0).at s (errno k) s' e g).0
  ]

  -- The states that a server comes to, from `new` on.
  pub data Served (host : H) (root : P) : SharedFolder P F H → Type 0 where
    started : Served host root (new host root)
    forgotten :
        (header : FuseInHeader) (s : SharedFolder P F H)
        → Served host root s
        → Served host root (forget header s)
    dispatched :
        (header : FuseInHeader) (body : List ℕ) (s : SharedFolder P F H) (o : Outcome (List ℕ))
        (s' : SharedFolder P F H)
        → Served host root s
        → dispatch debug os header body s ≡ ok (o, s')
        → Served host root s'

  new-IsFresh : (host : H) (root : P) → IsFresh {P = P} {F = F} {H = H} (new host root)
  unfolding new
  new-IsFresh host root = record { nodes = λ k p e. ground arith; files = λ k f e. cc }

  Served-IsFresh : (host : H) (root : P) {s : SharedFolder P F H} → Served host root s → IsFresh s
  unfolding forget dispatch
  Served-IsFresh host root started = new-IsFresh host root
  Served-IsFresh host root (forgotten header s v) =
      removed-IsFresh s header.nodeid (Served-IsFresh host root v)
  Served-IsFresh host root (dispatched header body s o s' v e) =
      elim (Bool-cases (header.opcode == 42)) [
        | inl is ↦
            let op : header.opcode ≡ 42 = ground (arith, is) in
            batch_forget-IsFresh body s o s' (rw op at e) (Served-IsFresh host root v)
        | inr other ↦
            ((Keeps-dispatch header body (ground (arith, other))).at s o s' e
              (Served-IsFresh host root v)).0
      ]

  -- In a build with overflow checks, whatever was served before: a request that returns, failed or
  -- not, unless it forgets nodes itself (opcode 42), leaves every node number naming the path that
  -- it named, and numbers nodes only upwards, past every number in use.
  pub dispatch-Extends :
      (host : H) (root : P) (header : FuseInHeader) (body : List ℕ) (s : SharedFolder P F H)
      (o : Outcome (List ℕ)) (s' : SharedFolder P F H)
      → Served host root s
      → header.opcode ≢ 42
      → dispatch debug os header body s ≡ ok (o, s')
      → IsFresh s' × Extends s s'
  dispatch-Extends host root header body s o s' v other e =
      (Keeps-dispatch header body other).at s o s' e (Served-IsFresh host root v)

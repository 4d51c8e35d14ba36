-- ===== src/SharedFolder/Keeps.antt =====
-- What a handler of the FUSE server (src/platform/shared_folder) leaves of the tables, from its parts.
use ferrum_vm.Prelude.{
  ℕ, ◌+◌, ◌≤◌, ◌<◌, ◌≡◌, refl, subst, Bool, true, false, Option, none, some, List, ltb,
  if◌then◌else◌, arith, Result, ok, panic, no_fuel, debug, u64_mod, Bool-cases, inl, inr,
}
use ferrum_vm.Prelude.HashMap
use ferrum_vm.Prelude.HashMap.{get-insert}
use ferrum_vm.SharedFolder.Host.{ErrorKind, IoResult, success, failure, HostFs}
use ferrum_vm.SharedFolder.{
  SharedFolder, server, set_host, call, ask, path_of, close_file, add_inode, number_file, add_file,
}
use ferrum_vm.SharedFolder.Handlers.{
  Outcome, done, errno, Handler, ◌>>=◌, resume, pure, fail, crash, or_fail, map_err, slice, tail,
  u32_at, u64_at,
}

module _ {P F H : Type 0} where
  -- The next number is past every number in use, in both tables.
  pub record IsFresh (s : SharedFolder P F H) : Type 0 where
    pub nodes : (k : ℕ) (p : P) → HashMap.get s.inodes k ≡ some p → k < s.next_inode
    pub files : (k : ℕ) (f : F) → HashMap.get s.open_files k ≡ some f → k < s.next_fh

  -- Every node number still names its path.
  pub record Extends (s s' : SharedFolder P F H) : Type 0 where
    pub paths : (k : ℕ) (p : P) → HashMap.get s.inodes k ≡ some p → HashMap.get s'.inodes k ≡ some p
    pub later : s.next_inode ≤ s'.next_inode

  abbrev pub Goes : SharedFolder P F H → SharedFolder P F H → Type 0
  Goes s s' = IsFresh s → IsFresh s' × Extends s s'

  pub record Keeps {A : Type 0} (m : Handler (SharedFolder P F H) A) : Type 0 where
    pub at :
        (s : SharedFolder P F H) (o : Outcome A) (s' : SharedFolder P F H)
        → m s ≡ ok (o, s')
        → Goes s s'

  Goes-refl : (s : SharedFolder P F H) → Goes s s
  Goes-refl s h = (h, record { paths = λ k p e. e; later = omega arith })

  Goes-trans : (s t u : SharedFolder P F H) → Goes s t → Goes t u → Goes s u
  Goes-trans s t u f g h =
      let (ht, e) = f h in
      let (hu, e') = g ht in
      (
        hu,
        record {
          paths = λ k p q. e'.paths k p (e.paths k p q);
          later = omega (arith, e.later, e'.later);
        },
      )

  -- A step that changes neither table.
  pub same-Goes :
      (s s' : SharedFolder P F H)
      → s'.inodes ≡ s.inodes
      → s'.next_inode ≡ s.next_inode
      → s'.open_files ≡ s.open_files
      → s.next_fh ≤ s'.next_fh
      → Goes s s'
  same-Goes s s' e e₁ e₂ le h = (
    record {
      nodes = λ k p q. rw e₁ (h.nodes k p (rw e at q));
      files = λ k f q. let old = h.files k f (rw e₂ at q) in omega arith;
    },
    record { paths = λ k p q. rw e q; later = omega arith },
  )

  pub Keeps-bind :
      {A B : Type 0} (m : Handler (SharedFolder P F H) A) (f : A → Handler (SharedFolder P F H) B)
      → Keeps m
      → ((a : A) → Keeps (f a))
      → Keeps (m >>= f)
  unfolding ◌>>=◌
  Keeps-bind {A} {B} m f km kf = record { at = λ s o s' h. first s o s' (m s) refl h }
    where
      first :
          (s : SharedFolder P F H) (o : Outcome B) (s' : SharedFolder P F H)
          (r : Result (Outcome A × SharedFolder P F H))
          → m s ≡ r
          → ◌≡◌ {A = Result (Outcome B × SharedFolder P F H)}
              (elim r [ ok r ↦ resume f r | panic ↦ panic | no_fuel ↦ no_fuel ])
              (ok (o, s'))
          → Goes s s'
      first s o s' (ok (done a, t)) e h =
          Goes-trans s t s' (km.at s (done a) t e) ((kf a).at t o s' h)
      first s o s' (ok (errno k, t)) e h =
          let same : t ≡ s' = cc in subst (λ u. Goes s u) same (km.at s (errno k) t e)
      first s o s' panic e h = cc
      first s o s' no_fuel e h = cc

  pub Keeps-pure : {A : Type 0} (a : A) → Keeps (pure a)
  unfolding pure
  Keeps-pure a = record {
    at = λ s o s' h. let same : s ≡ s' = cc in subst (λ u. Goes s u) same (Goes-refl s);
  }

  pub Keeps-fail : {A : Type 0} (e : ℕ) → Keeps (fail {A = A} e)
  unfolding fail
  Keeps-fail e = record {
    at = λ s o s' h. let same : s ≡ s' = cc in subst (λ u. Goes s u) same (Goes-refl s);
  }

  pub Keeps-crash : {A : Type 0} → Keeps (crash {A = A})
  unfolding crash
  Keeps-crash = record { at = λ s o s' h. cc }

  pub Keeps-server : Keeps server
  unfolding server
  Keeps-server = record {
    at = λ s o s' h. let same : s ≡ s' = cc in subst (λ u. Goes s u) same (Goes-refl s);
  }

  pub Keeps-set_host : (h : H) → Keeps (set_host h)
  unfolding set_host
  Keeps-set_host h = record {
    at = λ s o s' e.
        let same : record s { host = h } ≡ s' = cc in
        subst (λ u. Goes s u) same
          (same-Goes s (record s { host = h }) refl refl refl (omega arith));
  }

  pub Keeps-if :
      {A : Type 0} (c : Bool) (m n : Handler (SharedFolder P F H) A)
      → Keeps m
      → Keeps n
      → Keeps (if c then m else n)
  Keeps-if true m n h k = h
  Keeps-if false m n h k = k

  pub Keeps-or_fail : {A : Type 0} (o : Option A) (e : ℕ) → Keeps (or_fail o e)
  unfolding or_fail
  Keeps-or_fail none e = Keeps-fail e
  Keeps-or_fail (some a) e = Keeps-pure a

  pub Keeps-map_err : {A : Type 0} (f : ErrorKind → ℕ) (r : IoResult A) → Keeps (map_err f r)
  unfolding map_err
  Keeps-map_err f (success a) = Keeps-pure a
  Keeps-map_err f (failure k) = Keeps-fail (f k)

  -- A handler that returns a value got from arithmetic that may panic.
  pub Keeps-word :
      {A : Type 0} (r : Result ℕ) (f : ℕ → A)
      → Keeps (λ s. elim r [ panic ↦ panic | no_fuel ↦ no_fuel | ok n ↦ ok (done (f n), s) ])
  Keeps-word (ok n) f = record {
    at = λ s o s' h. let same : s ≡ s' = cc in subst (λ u. Goes s u) same (Goes-refl s);
  }
  Keeps-word panic f = record { at = λ s o s' h. cc }
  Keeps-word no_fuel f = record { at = λ s o s' h. cc }

  pub ruleset step_rules = (
    Keeps-bind, Keeps-pure, Keeps-fail, Keeps-crash, Keeps-server, Keeps-set_host, Keeps-if,
    Keeps-or_fail, Keeps-map_err,
  )

  pub Keeps-slice : (body : List ℕ) (from to : ℕ) → Keeps (slice body from to)
  unfolding slice
  Keeps-slice body from to = search step_rules

  pub Keeps-tail : (body : List ℕ) (from : ℕ) → Keeps (tail body from)
  unfolding tail
  Keeps-tail body from = search step_rules

  pub Keeps-u32_at : (body : List ℕ) (at : ℕ) → Keeps (u32_at body at)
  unfolding u32_at
  Keeps-u32_at body at = search (step_rules, Keeps-slice)

  pub Keeps-u64_at : (body : List ℕ) (at : ℕ) → Keeps (u64_at body at)
  unfolding u64_at
  Keeps-u64_at body at = search (step_rules, Keeps-slice)

  pub Keeps-call : {A : Type 0} (f : ErrorKind → ℕ) (m : H → IoResult A × H) → Keeps (call f m)
  unfolding call
  Keeps-call f m = search step_rules

  pub Keeps-ask : {A : Type 0} (f : ErrorKind → ℕ) (m : H → IoResult A) → Keeps (ask f m)
  unfolding ask
  Keeps-ask f m = search step_rules

  pub Keeps-path_of : (nodeid e : ℕ) → Keeps (path_of nodeid e)
  unfolding path_of
  Keeps-path_of nodeid e = search step_rules

  pub Keeps-close_file : (os : HostFs P F H) (o : Option F) → Keeps (close_file os o)
  unfolding close_file
  Keeps-close_file os none = search step_rules
  Keeps-close_file os (some f) = search step_rules

  inode-Goes :
      (s : SharedFolder P F H) (path : P)
      → Goes s (record s {
        next_inode = s.next_inode + 1;
        inodes = HashMap.insert s.inodes s.next_inode path;
      })
  inode-Goes s path h = (
    record {
      nodes = λ k p q. grind (arith, get-insert s.inodes s.next_inode path k, h.nodes k p);
      files = h.files;
    },
    record {
      paths = λ k p q. grind (arith, get-insert s.inodes s.next_inode path k, h.nodes k p);
      later = omega arith;
    },
  )

  pub Keeps-add_inode : (path : P) → Keeps (add_inode debug path)
  unfolding add_inode
  Keeps-add_inode path = record {
    at = λ s o s' h. elim (Bool-cases (ltb (s.next_inode + 1) u64_mod)) [
      | inl room ↦
          let same : record s {
            next_inode = s.next_inode + 1;
            inodes = HashMap.insert s.inodes s.next_inode path;
          }
              ≡ s' =
            cc (rw (add_inode, room) at h) in
          subst (λ u. Goes s u) same (inode-Goes s path)
      | inr none_left ↦ cc (rw (add_inode, none_left) at h)
    ];
  }

  file-Goes :
      (s : SharedFolder P F H) (file : F)
      → Goes s (record s {
        next_fh = s.next_fh + 1;
        open_files = HashMap.insert s.open_files s.next_fh file;
      })
  file-Goes s file h = (
    record {
      nodes = h.nodes;
      files = λ k f q. grind (arith, get-insert s.open_files s.next_fh file k, h.files k f);
    },
    record { paths = λ k p q. q; later = omega arith },
  )

  Keeps-number_file : (file : F) → Keeps (number_file debug file)
  unfolding number_file
  Keeps-number_file file = record {
    at = λ s o s' h. elim (Bool-cases (ltb (s.next_fh + 1) u64_mod)) [
      | inl room ↦
          let same : record s {
            next_fh = s.next_fh + 1;
            open_files = HashMap.insert s.open_files s.next_fh file;
          }
              ≡ s' =
            cc (rw (number_file, room) at h) in
          subst (λ u. Goes s u) same (file-Goes s file)
      | inr none_left ↦ cc (rw (number_file, none_left) at h)
    ];
  }

  pub Keeps-add_file : (os : HostFs P F H) (file : F) → Keeps (add_file debug os file)
  unfolding add_file
  Keeps-add_file os file = search (step_rules, Keeps-close_file, Keeps-number_file)

  pub ruleset keeps_rules = (
    step_rules, Keeps-slice, Keeps-tail, Keeps-u32_at, Keeps-u64_at, Keeps-call, Keeps-ask,
    Keeps-path_of, Keeps-close_file, Keeps-add_inode, Keeps-add_file,
  )

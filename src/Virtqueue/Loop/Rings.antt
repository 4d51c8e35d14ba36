-- ===== src/Virtqueue/Loop/Rings.antt =====
-- Returning an entry on the used ring leaves the available ring as it is.
use ferrum_vm.Prelude.{
  ℕ, ◌+◌, ◌*◌, ◌%◌, ◌<◌, ◌≡◌, refl, ◌∙◌, sym, Bool, Result, ok, Build, subst, arith, u16_mod,
}
use ferrum_vm.Memory.{GuestMemory}
use ferrum_vm.Memory.RoundTrip.{Backed, Apart}
use ferrum_vm.Memory.Words.{peek_word, poke_word, peek_word-poke-Apart, poke_word-Backed}
use ferrum_vm.Virtqueue.{VirtioQueue, push_used}
use ferrum_vm.Virtqueue.Avail.{HasAvail, advance}
use ferrum_vm.Virtqueue.Used.{HasUsed, returned, used_slot, advance_used, push_used-eq}
use ferrum_vm.Virtqueue.Loop.{Io}
use ferrum_vm.Virtqueue.Loop.Order.{KeepsRing}

-- The two rings of a queue share no byte.
abbrev pub RingsApart : VirtioQueue → Type 0
RingsApart q = Apart q.used_addr (4 + q.size * 8) q.avail_addr (4 + q.size * 2)

-- The used ring is in guest RAM, apart from the available one.
abbrev pub HasRings : GuestMemory → VirtioQueue → Type 0
HasRings mem q = HasUsed mem q × RingsApart q

mod-lt-size : (i n : ℕ) → 0 < n → i % n < n
mod-lt-size i n h = omega arith

module _ (mem : GuestMemory) (q : VirtioQueue) (head len : ℕ) where
  abbrev slot_written : GuestMemory
  slot_written = poke_word 4 (poke_word 4 mem (used_slot q) head) (used_slot q + 4) len

  returned-Backed : (a n : ℕ) → Backed mem a n → Backed (returned mem q head len) a n
  returned-Backed a n h = poke_word-Backed 2 slot_written _ _ a n (
      poke_word-Backed 4 (poke_word 4 mem (used_slot q) head) _ _ a n
        (poke_word-Backed 4 mem _ _ a n h))

  peek-returned :
      (a n : ℕ)
      → 0 < q.size
      → Backed mem a n
      → Apart q.used_addr (4 + q.size * 8) a n
      → peek_word n (returned mem q head len) a ≡ peek_word n mem a
  peek-returned a n pos h apart =
      let slot_in = mod-lt-size q.last_used_idx q.size pos in
      let first = poke_word 4 mem (used_slot q) head in
      let backed_first = poke_word-Backed 4 mem (used_slot q) head a n h in
      let backed_second = poke_word-Backed 4 first (used_slot q + 4) len a n backed_first in
      peek_word-poke-Apart n 2 slot_written (q.used_addr + 2) ((q.last_used_idx + 1) % u16_mod) a
        backed_second (ground arith)
      ∙ peek_word-poke-Apart n 4 first (used_slot q + 4) len a backed_first (ground arith)
      ∙ peek_word-poke-Apart n 4 mem (used_slot q) head a h (ground arith)

  pub returned-KeepsRing :
      HasAvail mem q
      → HasRings mem q
      → KeepsRing mem q (returned mem q head len) (advance_used q)
        × HasRings (returned mem q head len) (advance_used q)
  returned-KeepsRing v (u, apart) = (
    record {
      same_size = refl;
      same_index = refl;
      same_driver = peek-returned (q.avail_addr + 2) 2 v.size_pos v.idx_backed (ground arith);
      same_entries = λ idx.
          let slot_in = mod-lt-size idx q.size v.size_pos in
          peek-returned (q.avail_addr + (4 + (idx % q.size) * 2)) 2 v.size_pos
            (v.slot_backed (idx % q.size) slot_in) (ground arith);
      ring = record {
        size_pos = v.size_pos;
        in_space = v.in_space;
        idx_backed = returned-Backed _ _ v.idx_backed;
        slot_backed = λ i h. returned-Backed _ _ (v.slot_backed i h);
      };
    },
    (
      record {
        size_pos = u.size_pos;
        in_space = u.in_space;
        idx_backed = returned-Backed _ _ u.idx_backed;
        slot_backed = λ i h. (
          returned-Backed _ _ ((u.slot_backed i h).0),
          returned-Backed _ _ ((u.slot_backed i h).1),
        );
      },
      apart,
    ),
  )

-- A push to the used ring that returns keeps the available ring.
pushed-KeepsRing :
    (b : Build) (mem : GuestMemory) (q : VirtioQueue) (head len : ℕ) (mem' : GuestMemory)
    (q' : VirtioQueue)
    → HasAvail mem q
    → HasRings mem q
    → push_used b mem q head len ≡ ok (mem', q')
    → KeepsRing mem q mem' q' × HasRings mem' q'
pushed-KeepsRing b mem q head len mem' q' v rings h =
    let e = sym (push_used-eq b mem q head len rings.0) ∙ h in
    let same : (returned mem q head len, advance_used q) ≡ (mem', q') = cc in
    subst (λ (p : GuestMemory × VirtioQueue). KeepsRing mem q p.0 p.1 × HasRings p.0 p.1) same
      (returned-KeepsRing mem q head len v rings)

pub advance-HasRings :
    (mem : GuestMemory) (q : VirtioQueue) → HasRings mem q → HasRings mem (advance q)
advance-HasRings mem q (u, apart) = (
  record {
    size_pos = u.size_pos;
    in_space = u.in_space;
    idx_backed = u.idx_backed;
    slot_backed = u.slot_backed;
  },
  apart,
)

-- A body that ends with such a push.
pub answered-KeepsRing :
    {D : Type 0} (b : Build) (mem : GuestMemory) (q : VirtioQueue) (head len : ℕ)
    (pushed : GuestMemory × VirtioQueue) (device : D) (did w : Bool) (s' : Io D)
    → HasAvail mem q
    → HasRings mem q
    → push_used b mem q head len ≡ ok pushed
    → ◌≡◌ {A = Result (Bool × Io D)}
        (ok (did, record { mem = pushed.0; queue = pushed.1; device = device }))
        (ok (w, s'))
    → KeepsRing mem q s'.mem s'.queue × HasRings s'.mem s'.queue
answered-KeepsRing b mem q head len pushed device did w s' v rings e h =
    let last : record { mem = pushed.0; queue = pushed.1; device = device } ≡ s' = cc in
    subst (λ (t : Io _). KeepsRing mem q t.mem t.queue × HasRings t.mem t.queue) last
      (pushed-KeepsRing b mem q head len pushed.0 pushed.1 v rings e)

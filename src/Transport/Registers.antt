-- ===== src/Transport/Registers.antt =====
-- The registers of the virtio-mmio transport: `read` and `write` of
-- src/devices/virtio/transports/mmio.rs.
use ferrum_vm.Prelude.{
  ℕ, zero, suc, ◌+◌, ◌*◌, ◌/◌, ◌%◌, ◌^◌, ◌<◌, ◌≡◌, refl, ap, ap₂, ◌∙◌, bit_and, bit_or, some, List,
  [], ◌∷◌, length, get_elem?, set, get_elem?-set_self, arith, ok, ◌>>=◌, Build, u64_mod,
}
use ferrum_vm.Prelude.Bits.{
  bit_or_fields, bit_and_fields, bit_or-zero, bit_and-zero, bit_and_ones, bit_or_disjoint,
  zero-bit_or,
}
use ferrum_vm.Prelude.Bytes.{le_bytes, from_le-le_bytes}
use ferrum_vm.Virtqueue.{VirtioQueue}
use ferrum_vm.Virtio.{VirtioDevice}
use ferrum_vm.Transport.{Bus, set_low, set_high, read_u32_from_data, update_selected, put_queue}
use ferrum_vm.Transport.Write.{write, write_at, write_register}

keep_high :
    (hi lo : ℕ)
    → hi < 2 ^ 32
    → lo < 2 ^ 32
    → bit_and (hi * 2 ^ 32 + lo) 0xFFFFFFFF00000000 ≡ hi * 2 ^ 32
keep_high hi lo h l =
    bit_and_fields 32 hi 0xFFFFFFFF lo 0 l (omega arith)
    ∙ omega (arith, bit_and_ones 32 hi, bit_and-zero lo)

keep_low : (hi lo : ℕ) → lo < 2 ^ 32 → bit_and (hi * 2 ^ 32 + lo) 0xFFFFFFFF ≡ lo
keep_low hi lo l = bit_and_ones 32 (hi * 2 ^ 32 + lo) ∙ omega arith

-- Replacing one half keeps the other.
pub set_low_lem :
    (hi lo val : ℕ)
    → hi < 2 ^ 32
    → lo < 2 ^ 32
    → val < 2 ^ 32
    → set_low (hi * 2 ^ 32 + lo) val ≡ hi * 2 ^ 32 + val
unfolding set_low
set_low_lem hi lo val h l v = rw (keep_high hi lo h l) (bit_or_disjoint 32 hi val v)

pub set_high_lem :
    (hi lo val : ℕ)
    → lo < 2 ^ 32
    → val < 2 ^ 32
    → set_high (hi * 2 ^ 32 + lo) val ≡ val * 2 ^ 32 + lo
unfolding set_high
set_high_lem hi lo val l v =
    let shifted : (val * 2 ^ 32) % u64_mod ≡ val * 2 ^ 32 = omega arith in
    let joined : bit_or lo (val * 2 ^ 32) ≡ val * 2 ^ 32 + lo =
      ap₂ bit_or (omega arith) (omega arith)
      ∙ bit_or_fields 32 0 val lo 0 l (omega arith)
      ∙ omega (arith, zero-bit_or val, bit_or-zero lo) in
    rw (keep_low hi lo l, shifted) joined

both_halves :
    (x v : ℕ) → x < 2 ^ 64 → v < 2 ^ 64 → set_high (set_low x (v % 2 ^ 32)) (v / 2 ^ 32) ≡ v
both_halves x v hx hv =
    let hi = x / 2 ^ 32 in
    let lo = x % 2 ^ 32 in
    let split : x ≡ hi * 2 ^ 32 + lo = omega arith in
    ap (λ (t : ℕ). set_high (set_low t (v % 2 ^ 32)) (v / 2 ^ 32)) split
    ∙ ap (λ (t : ℕ). set_high t (v / 2 ^ 32))
        (set_low_lem hi lo (v % 2 ^ 32) (omega arith) (omega arith) (omega arith))
    ∙ set_high_lem hi (v % 2 ^ 32) (v / 2 ^ 32) (omega arith) (omega arith)
    ∙ omega arith

set-set : (qs : List VirtioQueue) (i : ℕ) (q q' : VirtioQueue) → set (set qs i q) i q' ≡ set qs i q'
set-set [] i q q' = refl
set-set (x ∷ qs) zero q q' = refl
set-set (x ∷ qs) (suc i) q q' = ap (λ (t : List VirtioQueue). x ∷ t) (set-set qs i q q')

get_elem?_bound :
    (qs : List VirtioQueue) (i : ℕ) {q : VirtioQueue} → get_elem? qs i ≡ some q → i < length qs
get_elem?_bound [] i e = cc
get_elem?_bound (x ∷ qs) zero e = omega arith
get_elem?_bound (x ∷ qs) (suc i) e = omega (arith, get_elem?_bound qs i e)

read_word : (v : ℕ) → v < 2 ^ 32 → read_u32_from_data (le_bytes 4 v) ≡ ok v
unfolding read_u32_from_data
read_word v h = ap ok (from_le-le_bytes 4 v h)

module _ {D : Type 0} where
  -- Two changes of the selected queue in a row.
  update_twice :
      (s : Bus D) (q : VirtioQueue) (f g : VirtioQueue → VirtioQueue)
      → get_elem? s.transport.queues s.transport.queue_sel ≡ some q
      → (do s₁ ← update_selected s f; update_selected s₁ g)
        ≡ ok (put_queue s s.transport.queue_sel (g (f q)))
  unfolding update_selected
  update_twice s q f g e =
      let i = s.transport.queue_sel in
      rw e (
        rw (get_elem?-set_self s.transport.queues i (f q) (get_elem?_bound s.transport.queues i e))
          (rw (set-set s.transport.queues i (f q) (g (f q)))))

module _ {D : Type 0} (b : Build) (dev : VirtioDevice D) (s : Bus D) (q : VirtioQueue) (v : ℕ) where
  -- Writing the low and then the high half of an address register sets the 64-bit address of the
  -- selected queue to the whole, and changes nothing else: for the descriptor table, the available
  -- ring and the used ring.
  pub write_address :
      get_elem? s.transport.queues s.transport.queue_sel ≡ some q
      → v < 2 ^ 64
      → (q.desc_addr < 2 ^ 64) × (q.avail_addr < 2 ^ 64) × (q.used_addr < 2 ^ 64)
      → ((do
        s₁ ← write b dev s 0x080 (le_bytes 4 (v % 2 ^ 32))
        write b dev s₁ 0x084 (le_bytes 4 (v / 2 ^ 32)))
          ≡ ok (put_queue s s.transport.queue_sel (record q { desc_addr = v })))
        × ((do
          s₁ ← write b dev s 0x090 (le_bytes 4 (v % 2 ^ 32))
          write b dev s₁ 0x094 (le_bytes 4 (v / 2 ^ 32)))
            ≡ ok (put_queue s s.transport.queue_sel (record q { avail_addr = v })))
        × ((do
          s₁ ← write b dev s 0x0A0 (le_bytes 4 (v % 2 ^ 32))
          write b dev s₁ 0x0A4 (le_bytes 4 (v / 2 ^ 32)))
            ≡ ok (put_queue s s.transport.queue_sel (record q { used_addr = v })))
  unfolding write write_register write_at
  write_address e small bounds =
      let lo : v % 2 ^ 32 < 2 ^ 32 = omega arith in
      let hi : v / 2 ^ 32 < 2 ^ 32 = omega arith in
      let i = s.transport.queue_sel in
      rw (read_word (v % 2 ^ 32) lo, read_word (v / 2 ^ 32) hi)
        (
          update_twice s q _ _ e
              ∙ ap (λ (t : ℕ). ok (put_queue s i (record q { desc_addr = t })))
                  (both_halves q.desc_addr v bounds.0 small),
          update_twice s q _ _ e
              ∙ ap (λ (t : ℕ). ok (put_queue s i (record q { avail_addr = t })))
                  (both_halves q.avail_addr v bounds.1 small),
          update_twice s q _ _ e
              ∙ ap (λ (t : ℕ). ok (put_queue s i (record q { used_addr = t })))
                  (both_halves q.used_addr v bounds.2 small),
        )

-- ===== src/Memory/Words.antt =====
-- The word accesses of the memory handle (`read_u16` .. `write_u32` in
-- src/devices/virtio/virtio.rs) on ranges that one region holds.
use ferrum_vm.Prelude.{ℕ, ◌≡◌, ◌<◌, ◌^◌, refl, ap, ◌∙◌, ok, Build, ◌>>=◌}
use ferrum_vm.Prelude.Bytes.{le_bytes, from_le, length-le_bytes, from_le-le_bytes}
use ferrum_vm.Memory.{GuestMemory, read_u16, read_u32, read_u64, write_u8, write_u16, write_u32}
use ferrum_vm.Memory.RoundTrip.{
  Backed, Apart, peek, poke, read_word_bytes-eq-peek, write_guest_memory-eq-poke, poke-Backed,
  peek-poke_self, peek-poke-Apart,
}

-- The word that `n` bytes of the memory hold.
abbrev pub peek_word : ℕ → GuestMemory → ℕ → ℕ
peek_word n mem a = from_le (peek mem a n)

-- The memory with `n` bytes replaced by a word.
abbrev pub poke_word : ℕ → GuestMemory → ℕ → ℕ → GuestMemory
poke_word n mem a v = poke mem a (le_bytes n v)

module _ (b : Build) (mem : GuestMemory) (a : ℕ) where
  pub read_u16-eq-peek : Backed mem a 2 → read_u16 b mem a ≡ ok (peek_word 2 mem a)
  unfolding read_u16
  read_u16-eq-peek h = rw (read_word_bytes-eq-peek b 2 mem a h) refl

  pub read_u32-eq-peek : Backed mem a 4 → read_u32 b mem a ≡ ok (peek_word 4 mem a)
  unfolding read_u32
  read_u32-eq-peek h = rw (read_word_bytes-eq-peek b 4 mem a h) refl

  pub read_u64-eq-peek : Backed mem a 8 → read_u64 b mem a ≡ ok (peek_word 8 mem a)
  unfolding read_u64
  read_u64-eq-peek h = rw (read_word_bytes-eq-peek b 8 mem a h) refl

  pub write_u8-eq-poke : (v : ℕ) → Backed mem a 1 → write_u8 b mem a v ≡ ok (poke_word 1 mem a v)
  unfolding write_u8
  write_u8-eq-poke v h = write_guest_memory-eq-poke b mem a (le_bytes 1 v) h

  pub write_u16-eq-poke : (v : ℕ) → Backed mem a 2 → write_u16 b mem a v ≡ ok (poke_word 2 mem a v)
  unfolding write_u16
  write_u16-eq-poke v h = write_guest_memory-eq-poke b mem a (le_bytes 2 v) h

  pub write_u32-eq-poke : (v : ℕ) → Backed mem a 4 → write_u32 b mem a v ≡ ok (poke_word 4 mem a v)
  unfolding write_u32
  write_u32-eq-poke v h = write_guest_memory-eq-poke b mem a (le_bytes 4 v) h

pub peek_word-poke_word :
    (n : ℕ) (mem : GuestMemory) (a v : ℕ)
    → Backed mem a n
    → v < 256 ^ n
    → peek_word n (poke_word n mem a v) a ≡ v
peek_word-poke_word n mem a v h small =
    ap from_le (
      rw (length-le_bytes n v) at
        (peek-poke_self mem a (le_bytes n v) (rw (length-le_bytes n v) h)))
    ∙ from_le-le_bytes n v small

pub peek_word-poke-Apart :
    (n k : ℕ) (mem : GuestMemory) (a v a' : ℕ)
    → Backed mem a' n
    → Apart a k a' n
    → peek_word n (poke_word k mem a v) a' ≡ peek_word n mem a'
peek_word-poke-Apart n k mem a v a' h d =
    ap from_le (peek-poke-Apart mem a (le_bytes k v) a' n (rw (length-le_bytes k v) d) h)

pub poke_word-Backed :
    (k : ℕ) (mem : GuestMemory) (a v a' n : ℕ) → Backed mem a' n → Backed (poke_word k mem a v) a' n
poke_word-Backed k mem a v a' n h = poke-Backed mem a (le_bytes k v) a' n h

-- In both builds a 32-bit word written to four bytes that one region holds is read back whole.
read_u32-write_u32 :
    (b : Build) (mem : GuestMemory) (a v : ℕ)
    → Backed mem a 4
    → v < 2 ^ 32
    → (do mem' ← write_u32 b mem a v; read_u32 b mem' a) ≡ ok v
read_u32-write_u32 b mem a v h small = rw (write_u32-eq-poke b mem a v h) (
    rw (read_u32-eq-peek b (poke_word 4 mem a v) a (poke_word-Backed 4 mem a v a 4 h))
      (ap ok (peek_word-poke_word 4 mem a v h small)))

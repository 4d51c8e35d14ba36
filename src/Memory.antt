-- ===== src/Memory.antt =====
-- Guest RAM: machine_config/memory_region.rs and the memory handle of devices/virtio/virtio.rs
-- (src/machine_config/memory_region.rs, src/devices/virtio/virtio.rs).
-- A region's host memory is a function from offsets to bytes beside the flag `ptr_is_null`; a
-- write through the shared pointer returns the new region. `Arc<Mutex<Vec<_>>>` is the list,
-- passed in and out; a `usize` is a `u64`.
use ferrum_vm.Prelude.{
  ℕ, zero, suc, ◌+◌, ◌-◌, ◌≤◌, ◌<◌, Bool, true, false, not, ◌&&◌, Option, none, some, List, [], ◌∷◌,
  ltb, leb, ◌==◌, if◌then◌else◌, length, replicate, Result, ok, panic, ◌>>=◌, unwrap, Build,
  sub_word, u64_mod,
}
use ferrum_vm.Prelude.Bytes.{le_bytes, from_le}
pub mod Cells
pub mod RoundTrip
pub mod Words
pub mod Unbacked
pub mod Held
pub mod Sizes
mod Examples

-- The `n` bytes from `a` on.
abbrev pub load : (ℕ → ℕ) → ℕ → ℕ → List ℕ
load c a zero = []
load c a (suc n) = c a ∷ load c (a + 1) n

-- The bytes after `xs` has been copied to `a`.
abbrev pub store : (ℕ → ℕ) → ℕ → List ℕ → ℕ → ℕ
store c a [] i = c i
store c a (x ∷ xs) i = if i == a then x else store c (a + 1) xs i

pub record MemoryRegion : Type 0 where
  pub ptr_is_null : Bool
  pub cells : ℕ → ℕ
  pub mem_size : ℕ
  pub mem_offset : ℕ

abbrev pub GuestMemory : Type 0
GuestMemory = List MemoryRegion

unfoldable pub in_bounds : MemoryRegion → ℕ → ℕ → Bool
in_bounds r addr len = not r.ptr_is_null && (leb addr r.mem_size && leb len (r.mem_size - addr))

unfoldable pub write : MemoryRegion → List ℕ → ℕ → MemoryRegion
unfolding in_bounds
write r bytes addr =
    if in_bounds r addr (length bytes) then record r { cells = store r.cells addr bytes } else r

unfoldable pub read : MemoryRegion → ℕ → ℕ → Option (List ℕ)
unfolding in_bounds
read r addr len = if in_bounds r addr len then some (load r.cells addr len) else none

-- `addr >= start && len <= size - (addr - start)`, the test of every access of the handle.
unfoldable pub fits : Build → MemoryRegion → ℕ → ℕ → Result Bool
fits b r addr len =
    if leb r.mem_offset addr
    then (do room ← sub_word b u64_mod r.mem_size (addr - r.mem_offset); ok (leb len room))
    else ok false

-- The loop of the reads of a word: the bytes, or zeros where no region has them.
unfoldable pub read_word_bytes : Build → ℕ → GuestMemory → ℕ → Result (List ℕ)
unfolding fits read
read_word_bytes b n [] addr = ok (replicate n 0)
read_word_bytes b n (r ∷ rs) addr =
    let rest = read_word_bytes b n rs addr in
    do inside ← fits b r addr n; if inside then unwrap (read r (addr - r.mem_offset) n) else rest

unfoldable pub read_byte : Build → GuestMemory → ℕ → Result ℕ
unfolding read_word_bytes
read_byte b mem addr = do bytes ← read_word_bytes b 1 mem addr; ok (from_le bytes)

unfoldable pub read_u16 : Build → GuestMemory → ℕ → Result ℕ
unfolding read_word_bytes
read_u16 b mem addr = do bytes ← read_word_bytes b 2 mem addr; ok (from_le bytes)

unfoldable pub read_u32 : Build → GuestMemory → ℕ → Result ℕ
unfolding read_word_bytes
read_u32 b mem addr = do bytes ← read_word_bytes b 4 mem addr; ok (from_le bytes)

unfoldable pub read_u64 : Build → GuestMemory → ℕ → Result ℕ
unfolding read_word_bytes
read_u64 b mem addr = do bytes ← read_word_bytes b 8 mem addr; ok (from_le bytes)

-- The loop of `read_guest_memory_alloc`: a region that refuses the read is passed over.
unfoldable pub read_regions : Build → GuestMemory → ℕ → ℕ → Result (List ℕ)
unfolding fits read
read_regions b [] addr len = ok (replicate len 0)
read_regions b (r ∷ rs) addr len =
    let rest = read_regions b rs addr len in
    do
      inside ← fits b r addr len
      if inside
          then elim (read r (addr - r.mem_offset) len) [ some bytes ↦ ok bytes | none ↦ rest ]
          else rest

unfoldable pub read_guest_memory_alloc : Build → GuestMemory → ℕ → ℕ → Result (List ℕ)
unfolding read_regions
read_guest_memory_alloc b mem addr len = if len == 0 then ok [] else read_regions b mem addr len

-- `read_guest_memory`: the buffer is replaced by what is read at its length.
unfoldable pub read_guest_memory : Build → GuestMemory → ℕ → List ℕ → Result (List ℕ)
unfolding read_guest_memory_alloc
read_guest_memory b mem addr buf = read_guest_memory_alloc b mem addr (length buf)

-- `write_guest_memory`: the first region that passes the test takes the bytes.
unfoldable pub write_guest_memory : Build → GuestMemory → ℕ → List ℕ → Result GuestMemory
unfolding fits write
write_guest_memory b [] addr bytes = ok []
write_guest_memory b (r ∷ rs) addr bytes =
    let rest = write_guest_memory b rs addr bytes in
    do
      inside ← fits b r addr (length bytes)
      if inside
          then ok (write r bytes (addr - r.mem_offset) ∷ rs)
          else (do rs' ← rest; ok (r ∷ rs'))

-- The writes of a word are the same loop over its little-endian bytes.
unfoldable pub write_u8 : Build → GuestMemory → ℕ → ℕ → Result GuestMemory
unfolding write_guest_memory
write_u8 b mem addr val = write_guest_memory b mem addr (le_bytes 1 val)

unfoldable pub write_u16 : Build → GuestMemory → ℕ → ℕ → Result GuestMemory
unfolding write_guest_memory
write_u16 b mem addr val = write_guest_memory b mem addr (le_bytes 2 val)

unfoldable pub write_u32 : Build → GuestMemory → ℕ → ℕ → Result GuestMemory
unfolding write_guest_memory
write_u32 b mem addr val = write_guest_memory b mem addr (le_bytes 4 val)

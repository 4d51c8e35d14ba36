-- ===== src/Virtqueue.antt =====
-- Split virtqueues: `VirtqDesc` and `VirtioQueue` of src/devices/virtio/virtio.rs.
-- The fences order the accesses of one thread and have no counterpart here.
use ferrum_vm.Prelude.{
  ℕ, ◌+◌, ◌*◌, ◌%◌, Bool, true, false, Option, none, some, ◌==◌, if◌then◌else◌, Result, ok, panic,
  ◌>>=◌, Build, add_word, mul_word, u16_mod, u64_mod,
}
use ferrum_vm.Memory.{GuestMemory, read_u16, read_u32, read_u64, write_u16, write_u32}
pub mod Avail
pub mod Used
pub mod Descriptor
pub mod Loop
mod Examples

abbrev pub virtq_desc_f_next : ℕ
virtq_desc_f_next = 1

abbrev pub virtq_desc_f_write : ℕ
virtq_desc_f_write = 2

pub record VirtqDesc : Type 0 where
  pub addr : ℕ
  pub len : ℕ
  pub flags : ℕ
  pub next : ℕ

pub record VirtioQueue : Type 0 where
  pub size : ℕ
  pub ready : Bool
  pub desc_addr : ℕ
  pub avail_addr : ℕ
  pub used_addr : ℕ
  pub last_avail_idx : ℕ
  pub last_used_idx : ℕ

abbrev pub new : VirtioQueue
new = record {
  size = 0;
  ready = false;
  desc_addr = 0;
  avail_addr = 0;
  used_addr = 0;
  last_avail_idx = 0;
  last_used_idx = 0;
}

unfoldable pub pop_avail : Build → GuestMemory → VirtioQueue → Result (Option ℕ × VirtioQueue)
pop_avail b mem q = if q.size == 0 then ok (none, q) else (do
  idx_addr ← add_word b u64_mod q.avail_addr 2
  avail_idx ← read_u16 b mem idx_addr
  if q.last_avail_idx == avail_idx then ok (none, q) else (do
    let offset = 4 + (q.last_avail_idx % q.size) * 2
    slot ← add_word b u64_mod q.avail_addr offset
    head ← read_u16 b mem slot
    ok (some head, record q { last_avail_idx = (q.last_avail_idx + 1) % u16_mod })))

unfoldable pub push_used :
    Build → GuestMemory → VirtioQueue → ℕ → ℕ → Result (GuestMemory × VirtioQueue)
push_used b mem q head len = if q.size == 0 then ok (mem, q) else (do
  let offset = 4 + (q.last_used_idx % q.size) * 8
  entry ← add_word b u64_mod q.used_addr offset
  mem₁ ← write_u32 b mem entry head
  entry_len ← add_word b u64_mod entry 4
  mem₂ ← write_u32 b mem₁ entry_len len
  let next = (q.last_used_idx + 1) % u16_mod
  idx_addr ← add_word b u64_mod q.used_addr 2
  mem₃ ← write_u16 b mem₂ idx_addr next
  ok (mem₃, record q { last_used_idx = next }))

unfoldable pub get_descriptor : Build → GuestMemory → VirtioQueue → ℕ → Result VirtqDesc
get_descriptor b mem q index = do
  base ← add_word b u64_mod q.desc_addr (index * 16)
  addr ← read_u64 b mem base
  len_addr ← add_word b u64_mod base 8
  len ← read_u32 b mem len_addr
  flags_addr ← add_word b u64_mod base 12
  flags ← read_u16 b mem flags_addr
  next_addr ← add_word b u64_mod base 14
  next ← read_u16 b mem next_addr
  ok (record { addr = addr; len = len; flags = flags; next = next })

-- `idx % self.size` panics at size 0.
unfoldable pub read_avail_entry : Build → GuestMemory → VirtioQueue → ℕ → Result ℕ
read_avail_entry b mem q idx =
    if q.size == 0
    then panic
    else (do slot ← add_word b u64_mod q.avail_addr (4 + (idx % q.size) * 2); read_u16 b mem slot)

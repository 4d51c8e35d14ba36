-- ===== src/Virtio/Blk.antt =====
-- The block device: src/devices/virtio/devices/blk.rs.
use ferrum_vm.Prelude.{
  ℕ, zero, suc, ◌+◌, ◌-◌, ◌*◌, ◌/◌, ◌%◌, ◌^◌, ◌≤◌, ◌<◌, ◌≡◌, ◌≢◌, refl, ap, bit_and, bit_or, Bool,
  true, false, not, ◌&&◌, ◌||◌, Option, none, some, List, [], ◌∷◌, ◌++◌, length, take, replicate,
  ◌==◌, ◌!=◌, ltb, leb, if◌then◌else◌, arith, Result, ok, panic, no_fuel, ◌>>=◌, >>=-eq-ok, Build,
  debug, release, add_word, mul_word, u8_mod, u16_mod, u32_mod, u64_mod, Returns, Bool-cases, inl,
  inr,
}
use ferrum_vm.Memory.{
  GuestMemory, read_u32, read_u64, read_guest_memory, write_guest_memory, write_u8,
}
use ferrum_vm.Virtqueue.{VirtioQueue, VirtqDesc, get_descriptor, push_used, pop_avail}
use ferrum_vm.Virtqueue.Used.{advance_used, push_used-advances}
use ferrum_vm.Virtqueue.Loop.{Io}
use ferrum_vm.Virtqueue.Loop.Balance.{
  IsBalanced, IsBalanced-refl, AnswersOne, while_avail-IsBalanced, IsBalanced-one, IsBalanced-trans,
}
use ferrum_vm.Virtio.{VirtioDevice}
use ferrum_vm.Prelude.Bytes.{le_bytes}
pub mod Batch

abbrev pub sector_size : ℕ
sector_size = 512

abbrev pub max_batch : ℕ
max_batch = 64

pub record BlkRequest : Type 0 where
  pub rqst_type : Bool
  pub sector : ℕ

unfoldable pub new_request : Build → GuestMemory → ℕ → Result BlkRequest
new_request b mem base_ptr = do
  kind ← read_u32 b mem base_ptr
  sector_addr ← add_word b u64_mod base_ptr 8
  sector ← read_u64 b mem sector_addr
  ok (record { rqst_type = kind != 0; sector = sector })

pub record VirtioBlkConfig : Type 0 where
  pub capacity : ℕ
  pub size_max : ℕ
  pub seg_max : ℕ
  pub blk_size : ℕ

-- `capacity / blk_size as u64` panics at 0.
unfoldable pub new_config : ℕ → ℕ → ℕ → ℕ → Result VirtioBlkConfig
new_config capacity size_max seg_max blk_size =
    if blk_size == 0
    then panic
    else ok (record {
      capacity = capacity / blk_size;
      size_max = size_max;
      seg_max = seg_max;
      blk_size = blk_size;
    })

-- `Vec::resize(len, 0)`.
abbrev pub resize : List ℕ → ℕ → List ℕ
resize bytes len = take len (bytes ++ replicate (len - length bytes) 0)

unfoldable pub config_to_bytes : VirtioBlkConfig → ℕ → List ℕ
config_to_bytes c len =
    resize
      (le_bytes 8 c.capacity
        ++ (le_bytes 4 c.size_max ++ (le_bytes 4 c.seg_max ++ le_bytes 4 c.blk_size)))
      len

-- The disk image, `std::fs::File`: whether a call succeeded, and the file after it.
pub record BlockFile (F : Type 0) : Type 0 where
  pub seek : F → ℕ → Bool × F
  pub read_exact : F → ℕ → Option (List ℕ) × F
  pub write_all : F → List ℕ → Bool × F

pub record BlkVirtio (F : Type 0) : Type 0 where
  pub guest_memory : Bool  -- whether a handle was passed
  pub blk_file : F
  pub config : VirtioBlkConfig

module _ {F : Type 0} where
  -- `BlkVirtio::new` on an opened image of `file_size` bytes.
  unfoldable pub new : F → ℕ → Result (BlkVirtio F)
  unfolding new_config
  new file file_size = do
    config ← new_config file_size (1024 * 1024) 128 512
    ok (record { guest_memory = false; blk_file = file; config = config })

  -- `push_used(head, len)` at the end of a round.
  unfoldable pub finish : Build → Io (BlkVirtio F) → ℕ → ℕ → Bool → Result (Bool × Io (BlkVirtio F))
  finish b s head len did_work = do
    (mem, queue) ← push_used b s.mem s.queue head len
    ok (did_work, record s { mem = mem; queue = queue })

module _ {F : Type 0} (b : Build) (file : BlockFile F) where
  abbrev with_file : Io (BlkVirtio F) → F → Io (BlkVirtio F)
  with_file s f = record s { device = record s.device { blk_file = f } }

  -- The branch `false`: a read from the image.
  unfoldable pub read_sectors :
      Io (BlkVirtio F) → ℕ → BlkRequest → VirtqDesc → VirtqDesc → Result (Bool × Io (BlkVirtio F))
  read_sectors s head request data_section status_byte = do
    pos ← mul_word b u64_mod request.sector sector_size
    let (sought, f) = file.seek s.device.blk_file pos
    if not sought then finish b (with_file s f) head 0 false else (do
      let (buf, f') = file.read_exact f data_section.len
      mem ← elim buf [
        | some bytes ↦ (do
          mem₁ ← write_guest_memory b s.mem data_section.addr bytes
          write_u8 b mem₁ status_byte.addr 0)
        | none ↦ write_u8 b s.mem status_byte.addr 1
      ]
      finish b (record (with_file s f') { mem = mem }) head data_section.len true)

  -- The branch `true`: a write to the image.
  unfoldable pub write_sectors :
      Io (BlkVirtio F) → ℕ → BlkRequest → VirtqDesc → VirtqDesc → Result (Bool × Io (BlkVirtio F))
  write_sectors s head request data_section status_byte = do
    buf ← read_guest_memory b s.mem data_section.addr (replicate data_section.len 0)
    pos ← mul_word b u64_mod request.sector 512
    let (sought, f) = file.seek s.device.blk_file pos
    if not sought then finish b (with_file s f) head 0 false else (do
      let (written, f') = file.write_all f buf
      mem ← write_u8 b s.mem status_byte.addr (if written then 0 else 1)
      finish b (record (with_file s f') { mem = mem }) head data_section.len true)

  -- One round of the loop of `tick`, for the head that it took.
  unfoldable pub serve : Io (BlkVirtio F) → ℕ → Result (Bool × Io (BlkVirtio F))
  serve s head = do
    header ← get_descriptor b s.mem s.queue head
    if bit_and header.flags 1 == 0 || header.len != 16 then finish b s head 0 false else (do
      request ← new_request b s.mem header.addr
      data_section ← get_descriptor b s.mem s.queue header.next
      let flags_ok =
          if request.rqst_type
          then bit_and data_section.flags 2 == 0
          else bit_and data_section.flags 2 != 0
      if not flags_ok then finish b s head 0 false else (do
        status_byte ← get_descriptor b s.mem s.queue data_section.next
        if bit_and status_byte.flags 2 == 0
            then finish b s head 0 false
            else if request.rqst_type
            then write_sectors s head request data_section status_byte
            else read_sectors s head request data_section status_byte))

  -- The loop of `tick`, with the rounds that are left before `count` reaches MAX_BATCH.
  unfoldable pub batch : ℕ → Io (BlkVirtio F) → Bool → Result (Bool × Io (BlkVirtio F))
  batch zero s did_work = ok (did_work, s)
  batch (suc left) s did_work = do
    (popped, q) ← pop_avail b s.mem s.queue
    elim popped [
      | none ↦ ok (did_work, record s { queue = q })
      | some head ↦ (do
        (worked, s') ← serve (record s { queue = q }) head
        batch left s' (did_work || worked))
    ]

  unfoldable pub tick : Io (BlkVirtio F) → ℕ → Result (Bool × Io (BlkVirtio F))
  tick s queue_sel =
      if queue_sel != 0
      then ok (false, s)
      else if not s.device.guest_memory
      then ok (false, s)
      else batch max_batch s false

  abbrev pub device : VirtioDevice (BlkVirtio F)
  device = record {
    virtio_type = λ d. 0x02;
    features = λ d. 0;
    negotiate_features = λ d features. d;
    pass_guest_memory = λ d. record d { guest_memory = true };
    tick = tick;
    read_config = λ d len. config_to_bytes d.config len;
    write_config = λ d offset bytes. d;
    update = λ d mem queues. ok (false, d, mem, queues);
    reset = λ d. d;
  }

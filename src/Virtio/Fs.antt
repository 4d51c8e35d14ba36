-- ===== src/Virtio/Fs.antt =====
-- The file system device: src/devices/virtio/devices/fs.rs, in front of the server of SharedFolder.
use ferrum_vm.Prelude.{
  ℕ, zero, suc, ◌+◌, ◌-◌, ◌%◌, min, bit_and, Bool, true, false, not, ◌&&◌, ◌||◌, List, [], ◌∷◌,
  ◌++◌, length, take, drop, replicate, ◌==◌, ◌!=◌, leb, if◌then◌else◌, Result, ok, panic, no_fuel,
  ◌>>=◌, Build, u32_mod,
}
use ferrum_vm.Prelude.Bytes.{le_bytes}
use ferrum_vm.Memory.{GuestMemory, read_guest_memory, write_guest_memory}
use ferrum_vm.Virtqueue.{VirtioQueue, VirtqDesc, get_descriptor, push_used}
use ferrum_vm.Virtqueue.Loop.{Io, while_avail}
use ferrum_vm.Virtio.{VirtioDevice}
use ferrum_vm.SharedFolder.Host.{HostFs}
use ferrum_vm.SharedFolder.{SharedFolder}
use ferrum_vm.SharedFolder.Handlers.{Outcome, done, errno}
use ferrum_vm.SharedFolder.Wire.{
  FuseInHeader, new_in_header, out_header_to_bytes, out_header_length,
}
use ferrum_vm.SharedFolder.Core.{forget, dispatch}
pub mod Chain
pub mod Reply

pub record FsVirtioConfig : Type 0 where
  pub tag : List ℕ
  pub request_queues : ℕ

-- `resize` to `n` bytes.
abbrev pub resize : ℕ → List ℕ → List ℕ
resize n xs = take n (xs ++ replicate (n - length xs) 0)

unfoldable pub new_config : List ℕ → ℕ → FsVirtioConfig
new_config tag request_queues = record { tag = resize 36 tag; request_queues = request_queues }

unfoldable pub config_to_bytes : FsVirtioConfig → ℕ → List ℕ
config_to_bytes c len = resize len (c.tag ++ le_bytes 4 c.request_queues)

pub record FsVirtio (P F H : Type 0) : Type 0 where
  pub guest_memory : Bool  -- whether a handle was passed
  pub config : FsVirtioConfig
  pub fuse_device : SharedFolder P F H

unfoldable pub new : {P F H : Type 0} → List ℕ → SharedFolder P F H → FsVirtio P F H
new name fuse_device = record {
  guest_memory = false;
  config = new_config name 1;
  fuse_device = fuse_device;
}

-- The loop of `collect_readable` at descriptor `desc`. The source's loop has no bound.
unfoldable pub collect_from :
    Build → GuestMemory → VirtioQueue → ℕ → VirtqDesc → List ℕ → Result (List ℕ)
collect_from b mem q zero desc bytes = no_fuel
collect_from b mem q (suc fuel) desc bytes = elim (bit_and desc.flags 2 != 0) [
  | true ↦ ok bytes
  | false ↦ (do
    buf ← read_guest_memory b mem desc.addr (replicate desc.len 0)
    elim (bit_and desc.flags 1 == 0) [
      | true ↦ ok (bytes ++ buf)
      | false ↦ (do
        next ← get_descriptor b mem q desc.next
        collect_from b mem q fuel next (bytes ++ buf))
    ])
]

unfoldable pub collect_readable : Build → ℕ → GuestMemory → VirtioQueue → ℕ → Result (List ℕ)
collect_readable b fuel mem q head = do
  desc ← get_descriptor b mem q head
  collect_from b mem q fuel desc []

-- What a descriptor takes of the reply from `written` on: the memory and the count after it.
unfoldable pub write_part : Build → GuestMemory → VirtqDesc → List ℕ → ℕ → Result (GuestMemory × ℕ)
write_part b mem desc reply written =
    if bit_and desc.flags 2 != 0
    then (do
      let n = min (length reply - written) desc.len
      mem' ← write_guest_memory b mem desc.addr (take n (drop written reply))
      ok (mem', written + n))
    else ok (mem, written)

-- The loop of `write_out_reply`, which has no bound either.
unfoldable pub write_out_from :
    Build → VirtioQueue → List ℕ → ℕ → GuestMemory → VirtqDesc → ℕ → Result (GuestMemory × ℕ)
write_out_from b q reply zero mem desc written = no_fuel
write_out_from b q reply (suc fuel) mem desc written = do
  (mem', written') ← write_part b mem desc reply written
  elim (bit_and desc.flags 2 != 0 && leb (length reply) written' || bit_and desc.flags 1 == 0) [
    | true ↦ ok (mem', written')
    | false ↦ (do
      next ← get_descriptor b mem' q desc.next
      write_out_from b q reply fuel mem' next written')
  ]

unfoldable pub write_out_reply :
    Build → ℕ → GuestMemory → VirtioQueue → ℕ → List ℕ → Result (GuestMemory × ℕ)
write_out_reply b fuel mem q head reply = do
  desc ← get_descriptor b mem q head
  write_out_from b q reply fuel mem desc 0

-- The reply to a request. The length is a `u32`, the error the word of a negative `i32`.
unfoldable pub reply_bytes : ℕ → Outcome (List ℕ) → List ℕ
reply_bytes unique (done payload) =
    out_header_to_bytes
      (record { len = (out_header_length + length payload) % u32_mod; error = 0; unique = unique })
    ++ payload
reply_bytes unique (errno e) =
    out_header_to_bytes (record {
      len = out_header_length % u32_mod;
      error = (u32_mod - e) % u32_mod;
      unique = unique;
    })

module _ {P F H : Type 0} (b : Build) (os : HostFs P F H) (fuel : ℕ) where
  -- `push_used` at the end of a round.
  unfoldable pub retire : Io (FsVirtio P F H) → ℕ → Result (Bool × Io (FsVirtio P F H))
  retire s head = do
    (mem, queue) ← push_used b s.mem s.queue head 0
    ok (true, record s { mem = mem; queue = queue })

  abbrev pub with_folder : Io (FsVirtio P F H) → SharedFolder P F H → Io (FsVirtio P F H)
  with_folder s folder = record s { device = record s.device { fuse_device = folder } }

  -- A round of the loop over the high-priority queue: `FUSE_FORGET` is 2.
  unfoldable pub hiprio : Io (FsVirtio P F H) → ℕ → Result (Bool × Io (FsVirtio P F H))
  hiprio s head = do
    bytes ← collect_readable b fuel s.mem s.queue head
    let header = (new_in_header bytes).0
    let folder =
        if header.opcode == 2 then forget header s.device.fuse_device else s.device.fuse_device
    retire (with_folder s folder) head

  -- A round of the loop over the request queue.
  unfoldable pub request : Io (FsVirtio P F H) → ℕ → Result (Bool × Io (FsVirtio P F H))
  request s head = do
    bytes ← collect_readable b fuel s.mem s.queue head
    let header = (new_in_header bytes).0
    (outcome, folder) ← dispatch b os header (new_in_header bytes).1 s.device.fuse_device
    (mem, written) ← write_out_reply b fuel s.mem s.queue head (reply_bytes header.unique outcome)
    retire (record (with_folder s folder) { mem = mem }) head

  unfoldable pub tick : Io (FsVirtio P F H) → ℕ → Result (Bool × Io (FsVirtio P F H))
  tick s queue_sel =
      if not s.device.guest_memory
      then ok (false, s)
      else if queue_sel == 0
      then while_avail b fuel hiprio s false
      else if queue_sel == 1
      then while_avail b fuel request s false
      else ok (false, s)

  abbrev pub device : VirtioDevice (FsVirtio P F H)
  device = record {
    virtio_type = λ d. 0x1A;
    features = λ d. 0;
    negotiate_features = λ d features. d;
    pass_guest_memory = λ d. record d { guest_memory = true };
    tick = tick;
    read_config = λ d len. config_to_bytes d.config len;
    write_config = λ d offset bytes. d;
    update = λ d mem queues. ok (false, d, mem, queues);
    reset = λ d. d;
  }

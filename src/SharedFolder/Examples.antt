-- ===== src/SharedFolder/Examples.antt =====
-- Runs of the FUSE server and of the device in front of it (src/platform/shared_folder,
-- src/devices/virtio/devices/fs.rs).
use ferrum_vm.Prelude.{
  ℕ, ◌+◌, ◌≡◌, refl, Bool, true, false, none, List, [], ◌∷◌, ◌++◌, replicate, arith, Result, ok,
  panic, no_fuel, debug,
}
use ferrum_vm.Prelude.Bytes.{le_bytes}
use ferrum_vm.Memory.{
  GuestMemory, store, in_bounds, write, read, fits, read_word_bytes, read_u16, read_u32, read_u64,
  read_regions, read_guest_memory_alloc, read_guest_memory, write_guest_memory, write_u8, write_u16,
  write_u32,
}
use ferrum_vm.Virtqueue.{VirtioQueue, VirtqDesc, pop_avail, push_used, get_descriptor}
use ferrum_vm.Virtqueue.Loop.{Io, while_avail}
use ferrum_vm.Virtqueue.Loop.Balance.{IsBalanced}
use ferrum_vm.SharedFolder.Host.{success, failure, other, Metadata, HostFs}
use ferrum_vm.SharedFolder.{SharedFolder, new, server, ask, path_of, add_inode}
use ferrum_vm.SharedFolder.Handlers.{Outcome, errno, ◌>>=◌, pure, fail, or_fail, map_err}
use ferrum_vm.SharedFolder.Utf8.{is_utf8}
use ferrum_vm.SharedFolder.Wire.{
  FuseInHeader, new_in_header, read_le, out_header_to_bytes, attr_fields, fuse_attr_bytes,
  build_entry_out, build_attr_out,
}
use ferrum_vm.SharedFolder.Node.{utf8, name_of, child, lookup, get_attr}
use ferrum_vm.SharedFolder.Core.{dispatch}
use ferrum_vm.SharedFolder.Keeps.{IsFresh, Extends}
use ferrum_vm.SharedFolder.Requests.{Served, started, dispatch-Extends}
use ferrum_vm.SharedFolder.Short.{dispatch_short}
use ferrum_vm.Virtio.Fs
use ferrum_vm.Virtio.Fs.{
  FsVirtio, collect_from, collect_readable, write_part, write_out_from, write_out_reply,
  reply_bytes, retire,
}
use ferrum_vm.Virtio.Fs.Chain.{
  Readable, writable, link, collect_readable-Readable, collect_readable_circular,
  fs_tick-IsBalanced,
}

abbrev meta : Metadata
meta = record {
  size = 12;
  atime = 0;
  mtime = 0;
  ctime = 0;
  atime_nsec = 0;
  mtime_nsec = 0;
  ctime_nsec = 0;
  mode = 0x81A4;
  nlink = 1;
  uid = 0;
  gid = 0;
  rdev = 0;
  is_dir = false;
  is_file = true;
  is_symlink = false;
}

-- A host where every path is a file, and a path is its bytes; its state counts the files opened.
abbrev host : HostFs (List ℕ) ℕ ℕ
host = record {
  join = λ path name. path ++ (0x2F ∷ name);
  metadata = λ h path. success meta;
  symlink_metadata = λ h path. success meta;
  open_with = λ h options path. (success h, h + 1);
  close = λ h f. h;
  set_len = λ h f size. (success tt, h);
  create_dir = λ h path. (success tt, h);
  set_permissions = λ h path mode. h;
  symlink = λ h target path. (success tt, h);
  remove_file = λ h path. (success tt, h);
  remove_dir = λ h path. (success tt, h);
  rename = λ h path path'. (success tt, h);
  read_link = λ h path. failure other;
  read_dir = λ h path. success [];
  seek = λ h f offset. (success tt, h);
  read = λ h f size. (success [], h);
  write_all = λ h f bytes. (success tt, h);
  fsync = λ h f. h;
}

abbrev header : ℕ → FuseInHeader
header opcode = record {
  len = 42;
  opcode = opcode;
  unique = 7;
  nodeid = 1;
  uid = 0;
  gid = 0;
  pid = 0;
  padding = 0;
}

abbrev folder : SharedFolder (List ℕ) ℕ ℕ
folder = record {
  inodes = (1, 0x2F ∷ []) ∷ [];
  next_inode = 2;
  open_files = [];
  next_fh = 1;
  proto_minor = none;
  host = 0;
}

folder_started : Served host 0 (0x2F ∷ []) folder
unfolding new
folder_started = started

abbrev outcome : {A : Type 0} → Result A → A → A
outcome (ok a) start = a
outcome panic start = start
outcome no_fuel start = start

abbrev looked_up : Outcome (List ℕ) × SharedFolder (List ℕ) ℕ ℕ
looked_up = outcome (dispatch debug host (header 1) (0x61 ∷ 0 ∷ []) folder) (errno 0, folder)

dispatch-Extends_example : IsFresh looked_up.1 × Extends folder looked_up.1
unfolding dispatch lookup name_of utf8 is_utf8 child path_of ask server map_err or_fail add_inode
    build_entry_out fuse_attr_bytes pure fail ◌>>=◌
dispatch-Extends_example =
    dispatch-Extends host 0 (0x2F ∷ []) (header 1) (0x61 ∷ 0 ∷ []) folder looked_up.0 looked_up.1
      folder_started (omega arith) refl

dispatch_short_example : dispatch debug host (header 15) (1 ∷ 2 ∷ []) folder ≡ panic
dispatch_short_example =
    dispatch_short debug host (1 ∷ 2 ∷ []) folder (omega arith) (header 15) refl

abbrev desc : ℕ → ℕ → ℕ → ℕ → List ℕ
desc addr len flags next =
    le_bytes 8 addr ++ (le_bytes 4 len ++ (le_bytes 2 flags ++ le_bytes 2 next))

-- A request for the attributes of node 1, its response, and a descriptor that names itself.
abbrev ram : GuestMemory
ram =
    record {
      ptr_is_null = false;
      cells =
          store
            (store (store (λ i. 0) 258 (1 ∷ 0 ∷ 0 ∷ 0 ∷ [])) 1024
              (le_bytes 4 40 ++ (le_bytes 4 3 ++ (le_bytes 8 7 ++ le_bytes 8 1))))
            0 (desc 1024 40 1 1 ++ (desc 1100 200 2 0 ++ desc 1024 8 1 2));
      mem_size = 4096;
      mem_offset = 0;
    }
    ∷ []

abbrev queue : VirtioQueue
queue = record {
  size = 4;
  ready = true;
  desc_addr = 0;
  avail_addr = 256;
  used_addr = 512;
  last_avail_idx = 0;
  last_used_idx = 0;
}

abbrev first : VirtqDesc
first = record { addr = 1024; len = 40; flags = 1; next = 1 }

abbrev second : VirtqDesc
second = record { addr = 1100; len = 200; flags = 2; next = 0 }

abbrev first_bytes : List ℕ
first_bytes = outcome (read_guest_memory debug ram 1024 (replicate 40 0)) []

first-Readable : Readable debug ram queue 1 first (first_bytes ++ [])
unfolding get_descriptor read fits in_bounds read_word_bytes read_u16 read_u32 read_u64 read_regions
    read_guest_memory_alloc read_guest_memory
first-Readable =
    link 0 first second first_bytes [] refl (omega arith) refl refl (writable second (omega arith))

collect_readable-Readable_example : collect_readable debug 2 ram queue 0 ≡ ok (first_bytes ++ [])
unfolding get_descriptor read fits in_bounds read_word_bytes read_u16 read_u32 read_u64
collect_readable-Readable_example =
    collect_readable-Readable debug ram queue 1 0 first (first_bytes ++ []) 2 refl first-Readable
      (omega arith)

collect_readable_circular_example : collect_readable debug 1000 ram queue 2 ≡ no_fuel
unfolding get_descriptor read fits in_bounds read_word_bytes read_u16 read_u32 read_u64 read_regions
    read_guest_memory_alloc read_guest_memory
collect_readable_circular_example =
    collect_readable_circular debug ram queue 2
      (record { addr = 1024; len = 8; flags = 1; next = 2 })
      (outcome (read_guest_memory debug ram 1024 (replicate 8 0)) []) 1000 refl refl refl
      (omega arith) refl

abbrev io : Io (FsVirtio (List ℕ) ℕ ℕ)
io = record {
  mem = ram;
  queue = queue;
  device = record {
    guest_memory = true;
    config = record { tag = []; request_queues = 1 };
    fuse_device = folder;
  };
}

abbrev answered : Bool × Io (FsVirtio (List ℕ) ℕ ℕ)
answered = outcome (Fs.tick debug host 4 io 1) (false, io)

fs_tick-IsBalanced_example : IsBalanced queue answered.1.queue
unfolding Fs.tick Fs.request retire collect_readable collect_from write_out_reply write_out_from
    write_part reply_bytes out_header_to_bytes attr_fields new_in_header read_le dispatch get_attr
    path_of ask server map_err or_fail build_attr_out fuse_attr_bytes pure fail ◌>>=◌ while_avail
    pop_avail push_used get_descriptor in_bounds write read fits read_word_bytes read_u16 read_u32
    read_u64 read_regions read_guest_memory_alloc read_guest_memory write_guest_memory write_u8
    write_u16 write_u32
fs_tick-IsBalanced_example = fs_tick-IsBalanced debug host 4 io 1 answered.0 answered.1 refl

-- ===== src/SharedFolder/Wire.antt =====
-- The bytes of the FUSE protocol: src/platform/shared_folder/fuse and src/platform/shared_folder/util.rs.
use ferrum_vm.Prelude.{
  ℕ, ◌+◌, ◌-◌, ◌*◌, ◌/◌, List, [], ◌++◌, length, take, drop, replicate, ltb, if◌then◌else◌, ok,
  panic, no_fuel, Build, add_word, u64_mod,
}
use ferrum_vm.Prelude.Bytes.{le_bytes, from_le}
use ferrum_vm.SharedFolder.Host.{Metadata}
use ferrum_vm.SharedFolder.Handlers.{Handler, done, pure, ◌>>=◌}

-- The integer of `n` bytes at the front of the input, 0 where it is too short, and what is left.
unfoldable pub read_le : ℕ → List ℕ → ℕ × List ℕ
read_le n input = if ltb (length input) n then (0, []) else (from_le (take n input), drop n input)

pub record FuseInHeader : Type 0 where
  pub len : ℕ
  pub opcode : ℕ
  pub unique : ℕ
  pub nodeid : ℕ
  pub uid : ℕ
  pub gid : ℕ
  pub pid : ℕ
  pub padding : ℕ

unfoldable pub new_in_header : List ℕ → FuseInHeader × List ℕ
new_in_header bytes =
    let (len, r₁) = read_le 4 bytes in
    let (opcode, r₂) = read_le 4 r₁ in
    let (unique, r₃) = read_le 8 r₂ in
    let (nodeid, r₄) = read_le 8 r₃ in
    let (uid, r₅) = read_le 4 r₄ in
    let (gid, r₆) = read_le 4 r₅ in
    let (pid, r₇) = read_le 4 r₆ in
    let (padding, rest) = read_le 4 r₇ in
    (
      record {
        len = len;
        opcode = opcode;
        unique = unique;
        nodeid = nodeid;
        uid = uid;
        gid = gid;
        pid = pid;
        padding = padding;
      },
      rest,
    )

-- The error is the 32-bit word of the `i32`.
pub record FuseOutHeader : Type 0 where
  pub len : ℕ
  pub error : ℕ
  pub unique : ℕ

unfoldable pub out_header_to_bytes : FuseOutHeader → List ℕ
out_header_to_bytes h = le_bytes 4 h.len ++ (le_bytes 4 h.error ++ le_bytes 8 h.unique)

abbrev pub out_header_length : ℕ
out_header_length = 4 + 4 + 8

pub record FuseInitIn : Type 0 where
  pub major : ℕ
  pub minor : ℕ
  pub max_readahead : ℕ
  pub flags : ℕ
  pub flags2 : ℕ

-- The first component of `FuseInitIn::new`; the caller drops the other.
unfoldable pub new_init_in : List ℕ → FuseInitIn
new_init_in bytes =
    let (major, r₁) = read_le 4 bytes in
    let (minor, r₂) = read_le 4 r₁ in
    let (max_readahead, r₃) = read_le 4 r₂ in
    let (flags, r₄) = read_le 4 r₃ in
    let (flags2, r₅) = read_le 4 r₄ in
    record {
      major = major;
      minor = minor;
      max_readahead = max_readahead;
      flags = flags;
      flags2 = flags2;
    }

pub record FuseInitOut : Type 0 where
  pub major : ℕ
  pub minor : ℕ
  pub max_readahead : ℕ
  pub flags : ℕ
  pub flags2 : ℕ
  pub max_background : ℕ
  pub congestion_threshold : ℕ
  pub max_write : ℕ
  pub time_gran : ℕ
  pub max_pages : ℕ
  pub map_alignment : ℕ

abbrev pub default_init_out : FuseInitOut
default_init_out = record {
  major = 0;
  minor = 0;
  max_readahead = 0;
  flags = 0;
  flags2 = 0;
  max_background = 0;
  congestion_threshold = 0;
  max_write = 0;
  time_gran = 0;
  max_pages = 0;
  map_alignment = 0;
}

unfoldable pub init_out_to_bytes : FuseInitOut → List ℕ
init_out_to_bytes o =
    le_bytes 4 o.major
    ++ (le_bytes 4 o.minor
        ++ (le_bytes 4 o.max_readahead
            ++ (le_bytes 4 o.flags
                ++ (le_bytes 4 o.flags2
                    ++ (le_bytes 2 o.max_background
                        ++ (le_bytes 2 o.congestion_threshold
                            ++ (le_bytes 4 o.max_write
                                ++ (le_bytes 4 o.time_gran
                                    ++ (le_bytes 2 o.max_pages
                                        ++ (le_bytes 2 o.map_alignment ++ replicate 32 0))))))))))

unfoldable pub truncate_init_out : FuseInitOut → ℕ → List ℕ
truncate_init_out out len = take len (init_out_to_bytes out)

abbrev pub init_out_length : ℕ
init_out_length = 4 * 5 + 2 * 2 + 4 * 2 + 2 * 2 + 4 * 8

-- `FUSE_INIT_OUT_SIZE_V0` and `FUSE_INIT_OUT_SIZE_PRE_MAX_PAGES`; and `size_of::<FuseInitOut>()`, which
-- has no padding.
abbrev pub init_out_size_v0 : ℕ
init_out_size_v0 = 4 * 2

abbrev pub init_out_size_pre_max_pages : ℕ
init_out_size_pre_max_pages = init_out_length - 2 * 2 - 4 * 8

abbrev pub size_of_init_out : ℕ
size_of_init_out = 36

-- The fields of `fuse_attr_bytes`.
unfoldable pub attr_fields : ℕ → Metadata → ℕ → List ℕ
attr_fields ino meta blocks =
    le_bytes 8 ino
    ++ (le_bytes 8 meta.size
        ++ (le_bytes 8 blocks
            ++ (le_bytes 8 meta.atime
                ++ (le_bytes 8 meta.mtime
                    ++ (le_bytes 8 meta.ctime
                        ++ (le_bytes 4 meta.atime_nsec
                            ++ (le_bytes 4 meta.mtime_nsec
                                ++ (le_bytes 4 meta.ctime_nsec
                                    ++ (le_bytes 4 meta.mode
                                        ++ (le_bytes 4 meta.nlink
                                            ++ (le_bytes 4 meta.uid
                                                ++ (le_bytes 4 meta.gid
                                                    ++ (le_bytes 4 meta.rdev
                                                        ++ (le_bytes 4 512
                                                            ++ le_bytes 4 0))))))))))))))

module _ {S : Type 0} (b : Build) where
  unfoldable pub fuse_attr_bytes : ℕ → Metadata → Handler S (List ℕ)
  fuse_attr_bytes ino meta s = elim (add_word b u64_mod meta.size 511) [
    | panic ↦ panic
    | no_fuel ↦ no_fuel
    | ok rounded ↦ ok (done (attr_fields ino meta (rounded / 512)), s)
  ]

  unfoldable pub build_entry_out : ℕ → Metadata → Handler S (List ℕ)
  build_entry_out nodeid meta = do
    attr ← fuse_attr_bytes nodeid meta
    pure (
        le_bytes 8 nodeid
        ++ (le_bytes 8 0
            ++ (le_bytes 8 1 ++ (le_bytes 8 1 ++ (le_bytes 4 0 ++ (le_bytes 4 0 ++ attr))))))

  unfoldable pub build_attr_out : Metadata → Handler S (List ℕ)
  build_attr_out meta = do
    attr ← fuse_attr_bytes 0 meta
    pure (le_bytes 8 1 ++ (le_bytes 4 0 ++ (le_bytes 4 0 ++ attr)))

-- ===== src/SharedFolder/File.antt =====
-- The handlers of src/platform/shared_folder/file.rs, src/platform/shared_folder/dir.rs and
-- src/platform/shared_folder/init.rs.
use ferrum_vm.Prelude.{
  ℕ, ◌+◌, ◌-◌, ◌*◌, ◌/◌, min, bit_and, Bool, true, false, not, ◌||◌, List, [], ◌∷◌, ◌++◌, length,
  take, replicate, ◌==◌, ◌!=◌, ltb, leb, if◌then◌else◌, Build, Option, some, none, ok, panic,
  no_fuel, add_word, u64_mod,
}
use ferrum_vm.Prelude.HashMap
use ferrum_vm.Prelude.Bytes.{le_bytes}
use ferrum_vm.SharedFolder.Host.{
  ErrorKind, not_found, permission_denied, already_exists, directory_not_empty, other, IoResult,
  success, failure, Metadata, DirEntry, OpenOptions, HostFs, enoent, eio, ebadf, eacces, eexist,
  enotdir, eproto,
}
use ferrum_vm.SharedFolder.{
  SharedFolder, server, set_host, call, ask, path_of, close_file, add_inode, add_file,
}
use ferrum_vm.SharedFolder.Handlers.{
  done, Handler, ◌>>=◌, ◌>>◌, pure, fail, or_fail, map_err, tail, u32_at, u64_at,
}
use ferrum_vm.SharedFolder.Wire.{
  FuseInHeader, FuseInitOut, default_init_out, new_init_in, truncate_init_out, init_out_size_v0,
  init_out_size_pre_max_pages, size_of_init_out, build_entry_out,
}
use ferrum_vm.SharedFolder.Node.{any_error, name_of, child}

unfoldable pub open_error : ErrorKind → ℕ
open_error not_found = enoent
open_error permission_denied = eacces
open_error already_exists = eexist
open_error directory_not_empty = eio
open_error other = eio

-- A handle with no flags.
abbrev pub opened : ℕ → List ℕ
opened fh = le_bytes 8 fh ++ (le_bytes 4 0 ++ le_bytes 4 0)

-- `O_TRUNC` is 0x200, `O_APPEND` 0x400 and `O_CREAT` 0x40.
abbrev pub has : ℕ → ℕ → Bool
has flags bit = bit_and flags bit != 0

unfoldable pub options_of : ℕ → OpenOptions
options_of flags =
    let access = bit_and flags 3 in
    record {
      readable = access == 0 || access == 2;
      writable = access == 1 || access == 2;
      append = has flags 0x400;
      truncate = has flags 0x200;
      creates = has flags 0x40;
      create_new = false;
      mode = 0x1B6;
    }

abbrev pub read_write_options : ℕ → OpenOptions
read_write_options flags = record {
  readable = true;
  writable = true;
  append = false;
  truncate = has flags 0x200;
  creates = true;
  create_new = false;
  mode = 0x1B6;
}

-- `filter_map(|e| e.ok())`.
unfoldable pub entries_ok : List (IoResult DirEntry) → List DirEntry
entries_ok [] = []
entries_ok (success e ∷ es) = e ∷ entries_ok es
entries_ok (failure k ∷ es) = entries_ok es

unfoldable pub file_type : Metadata → ℕ
file_type meta =
    if meta.is_dir then 4 else if meta.is_file then 8 else if meta.is_symlink then 10 else 0

unfoldable pub metadata_of : {S : Type 0} → DirEntry → Handler S Metadata
metadata_of e = map_err any_error e.metadata

-- The padding of a record to a multiple of 8.
abbrev pub padded : ℕ → ℕ
padded reclen = (reclen + 7) / 8 * 8

unfoldable pub dirent : DirEntry → Metadata → ℕ → List ℕ
dirent e meta pos =
    le_bytes 8 e.ino
    ++ (le_bytes 8 pos
        ++ (le_bytes 4 (length e.name)
            ++ (le_bytes 4 (file_type meta)
                ++ (e.name ++ replicate (padded (24 + length e.name) - (24 + length e.name)) 0))))

-- The loop over the entries from position `pos` on. A name is shorter than 2 ^ 32 - 32 bytes.
unfoldable pub entries_from : {S : Type 0} → ℕ → ℕ → List DirEntry → ℕ → List ℕ → Handler S (List ℕ)
entries_from offset max_size [] pos out = pure out
entries_from offset max_size (e ∷ es) pos out = elim (leb pos offset) [
  | true ↦ entries_from offset max_size es (pos + 1) out
  | false ↦ (do
    meta ← metadata_of e
    elim (ltb max_size (length out + padded (24 + length e.name))) [
      | true ↦ pure out
      | false ↦ entries_from offset max_size es (pos + 1) (out ++ dirent e meta pos)
    ])
]

unfoldable pub negotiate_flags : ℕ → ℕ
negotiate_flags guest_flags = bit_and 0 guest_flags

unfoldable pub init_out : ℕ → ℕ → ℕ → FuseInitOut
init_out minor max_readahead flags = record default_init_out {
  major = 7;
  minor = minor;
  max_readahead = min max_readahead (128 * 1024);
  flags = negotiate_flags flags;
  max_background = 16;
  congestion_threshold = 12;
  max_write = 1024 * 1024;
  time_gran = 1;
}

module _ {P F H : Type 0} (b : Build) (os : HostFs P F H) where
  -- The metadata of a file just created, which is dropped where there is none.
  unfoldable pub created : F → IoResult Metadata → Handler (SharedFolder P F H) Metadata
  created file (success meta) = pure meta
  created file (failure k) = close_file os (some file) >> fail eio

  unfoldable pub create : FuseInHeader → List ℕ → Handler (SharedFolder P F H) (List ℕ)
  create header body = do
    flags ← u32_at body 0
    rest ← tail body 16
    name ← name_of rest
    child_path ← child b os header name
    file ← call any_error (λ h. os.open_with h (read_write_options flags) child_path)
    nodeid ← add_inode b child_path
    s ← server
    meta ← created file (os.metadata s.host child_path)
    fh ← add_file b os file
    entry ← build_entry_out b nodeid meta
    pure (entry ++ opened fh)

  unfoldable pub open_file : FuseInHeader → List ℕ → Handler (SharedFolder P F H) (List ℕ)
  open_file header body = do
    flags ← u32_at body 0
    path ← path_of header.nodeid eio
    file ← call open_error (λ h. os.open_with h (options_of flags) path)
    fh ← add_file b os file
    pure (opened fh)

  unfoldable pub forget_file : ℕ → Handler (SharedFolder P F H) (Unit {0})
  forget_file fh s = ok (done tt, record s { open_files = HashMap.remove s.open_files fh })

  unfoldable pub release : List ℕ → Handler (SharedFolder P F H) (List ℕ)
  release body = do
    fh ← u64_at body 0
    s ← server
    close_file os (HashMap.get s.open_files fh)
    forget_file fh
    pure []

  -- `self.open_files.get_mut(&fh).ok_or(libc::EBADF)?`.
  unfoldable pub file_of : ℕ → Handler (SharedFolder P F H) F
  file_of fh = do s ← server; or_fail (HashMap.get s.open_files fh) ebadf

  unfoldable pub read : List ℕ → Handler (SharedFolder P F H) (List ℕ)
  read body = do
    fh ← u64_at body 0
    offset ← u64_at body 8
    size ← u32_at body 16
    file ← file_of fh
    call any_error (λ h. os.seek h file offset)
    call any_error (λ h. os.read h file size)

  unfoldable pub write : List ℕ → Handler (SharedFolder P F H) (List ℕ)
  write body = do
    fh ← u64_at body 0
    offset ← u64_at body 8
    size ← u32_at body 16
    payload ← tail body 24
    file ← file_of fh
    call any_error (λ h. os.seek h file offset)
    let write_len = min size (length payload)
    call any_error (λ h. os.write_all h file (take write_len payload))
    pure (le_bytes 4 write_len ++ le_bytes 4 0)

  unfoldable pub sync_file : Option F → Handler (SharedFolder P F H) (Unit {0})
  sync_file none = pure tt
  sync_file (some f) = do s ← server; set_host (os.fsync s.host f)

  unfoldable pub fsync : List ℕ → Handler (SharedFolder P F H) (List ℕ)
  fsync body = do fh ← u64_at body 0; s ← server; sync_file (HashMap.get s.open_files fh); pure []

  -- A handle that names no file.
  unfoldable pub fresh_fh : Handler (SharedFolder P F H) ℕ
  fresh_fh s = elim (add_word b u64_mod s.next_fh 1) [
    | ok next ↦ ok (done s.next_fh, record s { next_fh = next })
    | panic ↦ panic
    | no_fuel ↦ no_fuel
  ]

  unfoldable pub open_dir : FuseInHeader → Handler (SharedFolder P F H) (List ℕ)
  open_dir header = do
    path ← path_of header.nodeid eio
    meta ← ask any_error (λ h. os.metadata h path)
    if not meta.is_dir then fail enotdir else (do fh ← fresh_fh; pure (opened fh))

  unfoldable pub read_dir : FuseInHeader → List ℕ → Handler (SharedFolder P F H) (List ℕ)
  read_dir header body = do
    offset ← u64_at body 8
    max_size ← u32_at body 16
    path ← path_of header.nodeid eio
    entries ← ask any_error (λ h. os.read_dir h path)
    entries_from offset max_size (entries_ok entries) 1 []

  unfoldable pub set_minor : ℕ → Handler (SharedFolder P F H) (Unit {0})
  set_minor minor s = ok (done tt, record s { proto_minor = some minor })

  unfoldable pub init : List ℕ → Handler (SharedFolder P F H) (List ℕ)
  init body =
      let req = new_init_in body in
      let minor = min req.minor 41 in
      if req.major != 7
      then (if ltb 7 req.major
          then pure (
              truncate_init_out (record default_init_out { major = 7; minor = 41 })
                init_out_size_v0)
          else fail eproto)
      else (do
        set_minor minor
        pure (
            truncate_init_out (init_out minor req.max_readahead req.flags) (
              if ltb minor 5
              then init_out_size_v0
              else if ltb minor 23
              then init_out_size_pre_max_pages
              else size_of_init_out)))

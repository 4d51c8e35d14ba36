-- ===== src/SharedFolder.antt =====
-- The FUSE server of the shared folder: src/platform/shared_folder. Here: the server's state (core.rs),
-- and the handlers' steps on it.
use ferrum_vm.Prelude.{
  ℕ, zero, suc, ◌+◌, ◌-◌, Bool, true, false, ◌&&◌, Option, none, some, List, [], ◌∷◌, length, take,
  drop, ◌==◌, ltb, leb, if◌then◌else◌, Result, ok, panic, no_fuel, Build, add_word, u64_mod,
}
use ferrum_vm.Prelude.HashMap
use ferrum_vm.Prelude.Bytes.{from_le}
use ferrum_vm.SharedFolder.Host.{
  enoent, eio, ebadf, eacces, eexist, enotdir, enosys, enotempty, eproto, ErrorKind, IoResult,
  Metadata, OpenOptions, DirEntry, HostFs, not_found, permission_denied, already_exists,
  directory_not_empty, other, success, failure,
}
use ferrum_vm.SharedFolder.Handlers.{
  Outcome, Handler, resume, ◌>>=◌, ◌>>◌, pure, fail, crash, or_fail, map_err, slice, tail, u32_at,
  u64_at, name_len, done, errno,
}
pub mod Host
pub mod Handlers
pub mod Utf8
pub mod Wire
pub mod Node
pub mod File
pub mod Core
pub mod Keeps
pub mod Tables
pub mod Requests
pub mod Short
mod Examples

abbrev pub fuse_root_id : ℕ
fuse_root_id = 1

-- The server beside the state of the host.
pub record SharedFolder (P F H : Type 0) : Type 0 where
  pub inodes : List (ℕ × P)
  pub next_inode : ℕ
  pub open_files : List (ℕ × F)
  pub next_fh : ℕ
  pub proto_minor : Option ℕ
  pub host : H

unfoldable pub new : {P F H : Type 0} → H → P → SharedFolder P F H
new host root = record {
  inodes = HashMap.insert [] fuse_root_id root;
  next_inode = fuse_root_id + 1;
  open_files = [];
  next_fh = 1;
  proto_minor = none;
  host = host;
}

module _ {P F H : Type 0} where
  -- Where the server's state is read and written.
  unfoldable pub server : Handler (SharedFolder P F H) (SharedFolder P F H)
  server s = ok (done s, s)

  unfoldable pub set_host : H → Handler (SharedFolder P F H) (Unit {0})
  set_host h s = ok (done tt, record s { host = h })

  -- A call of the host that may change it.
  unfoldable pub call :
      {A : Type 0} → (ErrorKind → ℕ) → (H → IoResult A × H) → Handler (SharedFolder P F H) A
  call f m = do s ← server; set_host (m s.host).1; map_err f (m s.host).0

  -- A call that only reads it.
  unfoldable pub ask :
      {A : Type 0} → (ErrorKind → ℕ) → (H → IoResult A) → Handler (SharedFolder P F H) A
  ask f m = do s ← server; map_err f (m s.host)

  -- `self.inodes.get(&nodeid).ok_or(e)?`.
  unfoldable pub path_of : ℕ → ℕ → Handler (SharedFolder P F H) P
  path_of nodeid e = do s ← server; or_fail (HashMap.get s.inodes nodeid) e

  unfoldable pub close_file : HostFs P F H → Option F → Handler (SharedFolder P F H) (Unit {0})
  close_file os none = pure tt
  close_file os (some f) = do s ← server; set_host (os.close s.host f)

  -- `let nodeid = self.next_inode; self.next_inode += 1; self.inodes.insert(nodeid, path);`
  unfoldable pub add_inode : Build → P → Handler (SharedFolder P F H) ℕ
  add_inode b path s = elim (add_word b u64_mod s.next_inode 1) [
    | ok next ↦ ok (
      done s.next_inode,
      record s { next_inode = next; inodes = HashMap.insert s.inodes s.next_inode path },
    )
    | panic ↦ panic
    | no_fuel ↦ no_fuel
  ]

  -- Likewise for a handle.
  unfoldable pub number_file : Build → F → Handler (SharedFolder P F H) ℕ
  number_file b file s = elim (add_word b u64_mod s.next_fh 1) [
    | ok next ↦ ok (
      done s.next_fh,
      record s { next_fh = next; open_files = HashMap.insert s.open_files s.next_fh file },
    )
    | panic ↦ panic
    | no_fuel ↦ no_fuel
  ]

  -- A file that the number named before is dropped.
  unfoldable pub add_file : Build → HostFs P F H → F → Handler (SharedFolder P F H) ℕ
  add_file b os file = do
    s ← server
    close_file os (HashMap.get s.open_files s.next_fh)
    number_file b file

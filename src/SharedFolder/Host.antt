-- ===== src/SharedFolder/Host.antt =====
-- What the FUSE server calls of the host's file system (src/platform/shared_folder).
use ferrum_vm.Prelude.{ℕ, Bool, List}

abbrev pub enoent : ℕ
enoent = 2

abbrev pub eio : ℕ
eio = 5

abbrev pub ebadf : ℕ
ebadf = 9

abbrev pub eacces : ℕ
eacces = 13

abbrev pub eexist : ℕ
eexist = 17

abbrev pub enotdir : ℕ
enotdir = 20

abbrev pub enosys : ℕ
enosys = 38

abbrev pub enotempty : ℕ
enotempty = 39

abbrev pub eproto : ℕ
eproto = 71

-- `std::io::ErrorKind`, as far as the server tells its values apart.
pub data ErrorKind : Type 0 where
  not_found permission_denied already_exists directory_not_empty other : ErrorKind

-- What a call of the host's file system comes to.
pub data IoResult (A : Type 0) : Type 0 where
  success : A → IoResult A
  failure : ErrorKind → IoResult A

-- The words that the server's casts make of `std::fs::Metadata`.
pub record Metadata : Type 0 where
  pub size : ℕ
  pub atime : ℕ
  pub mtime : ℕ
  pub ctime : ℕ
  pub atime_nsec : ℕ
  pub mtime_nsec : ℕ
  pub ctime_nsec : ℕ
  pub mode : ℕ
  pub nlink : ℕ
  pub uid : ℕ
  pub gid : ℕ
  pub rdev : ℕ
  pub is_dir : Bool
  pub is_file : Bool
  pub is_symlink : Bool

-- `OpenOptions`, with the mode of a file that is created.
pub record OpenOptions : Type 0 where
  pub readable : Bool
  pub writable : Bool
  pub append : Bool
  pub truncate : Bool
  pub creates : Bool
  pub create_new : Bool
  pub mode : ℕ

pub record DirEntry : Type 0 where
  pub name : List ℕ  -- `file_name().to_string_lossy()`
  pub metadata : IoResult Metadata
  pub ino : ℕ

-- The host's file system: paths, handles of open files and the host's state, which a call may change.
pub record HostFs (P F H : Type 0) : Type 0 where
  pub join : P → List ℕ → P
  pub metadata : H → P → IoResult Metadata
  pub symlink_metadata : H → P → IoResult Metadata
  pub open_with : H → OpenOptions → P → IoResult F × H
  pub close : H → F → H
  pub set_len : H → F → ℕ → IoResult (Unit {0}) × H
  pub create_dir : H → P → IoResult (Unit {0}) × H
  pub set_permissions : H → P → ℕ → H
  pub symlink : H → List ℕ → P → IoResult (Unit {0}) × H
  pub remove_file : H → P → IoResult (Unit {0}) × H
  pub remove_dir : H → P → IoResult (Unit {0}) × H
  pub rename : H → P → P → IoResult (Unit {0}) × H
  pub read_link : H → P → IoResult (List ℕ)
  pub read_dir : H → P → IoResult (List (IoResult DirEntry))
  pub seek : H → F → ℕ → IoResult (Unit {0}) × H
  pub read : H → F → ℕ → IoResult (List ℕ) × H
  pub write_all : H → F → List ℕ → IoResult (Unit {0}) × H
  pub fsync : H → F → H

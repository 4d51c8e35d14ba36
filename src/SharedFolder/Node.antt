-- ===== src/SharedFolder/Node.antt =====
-- The handlers of src/platform/shared_folder/node.rs.
use ferrum_vm.Prelude.{
  ℕ, ◌+◌, bit_and, true, false, List, [], ◌∷◌, ◌++◌, take, replicate, ◌==◌, ◌!=◌, if◌then◌else◌,
  Build, some,
}
use ferrum_vm.SharedFolder.Host.{
  ErrorKind, not_found, permission_denied, already_exists, directory_not_empty, other, OpenOptions,
  HostFs, enoent, eio, eacces, eexist, enotempty,
}
use ferrum_vm.SharedFolder.{
  SharedFolder, server, set_host, call, ask, path_of, close_file, add_inode,
}
use ferrum_vm.SharedFolder.Handlers.{
  Handler, map_err, ◌>>=◌, ◌>>◌, pure, fail, tail, u32_at, u64_at, name_len,
}
use ferrum_vm.SharedFolder.Utf8.{is_utf8}
use ferrum_vm.SharedFolder.Wire.{FuseInHeader, build_entry_out, build_attr_out}

-- The `map_err` functions.
abbrev pub any_error : ErrorKind → ℕ
any_error k = eio

unfoldable pub lookup_error : ErrorKind → ℕ
lookup_error not_found = enoent
lookup_error permission_denied = eacces
lookup_error already_exists = eio
lookup_error directory_not_empty = eio
lookup_error other = eio

unfoldable pub mkdir_error : ErrorKind → ℕ
mkdir_error not_found = eio
mkdir_error permission_denied = eio
mkdir_error already_exists = eexist
mkdir_error directory_not_empty = eio
mkdir_error other = eio

unfoldable pub remove_error : ErrorKind → ℕ
remove_error not_found = enoent
remove_error permission_denied = eacces
remove_error already_exists = eio
remove_error directory_not_empty = enotempty
remove_error other = eio

unfoldable pub utf8 : {S : Type 0} → List ℕ → Handler S (List ℕ)
utf8 bytes = if is_utf8 bytes then pure bytes else fail eio

-- The bytes up to the first 0, as a name.
unfoldable pub name_of : {S : Type 0} → List ℕ → Handler S (List ℕ)
name_of bytes = utf8 (take (name_len bytes) bytes)

-- `File::create`.
abbrev pub create_options : OpenOptions
create_options = record {
  readable = false;
  writable = true;
  append = false;
  truncate = true;
  creates = true;
  create_new = false;
  mode = 0x1B6;
}

-- `File::options().create_new(true).mode(mode)`.
abbrev pub new_options : ℕ → OpenOptions
new_options mode = record {
  readable = false;
  writable = false;
  append = false;
  truncate = false;
  creates = false;
  create_new = true;
  mode = mode;
}

-- `OpenOptions::new().write(true)`.
abbrev pub write_options : OpenOptions
write_options = record {
  readable = false;
  writable = true;
  append = false;
  truncate = false;
  creates = false;
  create_new = false;
  mode = 0x1B6;
}

module _ {P F H : Type 0} (b : Build) (os : HostFs P F H) where
  -- The path of a name in the directory that the header names.
  unfoldable pub child : FuseInHeader → List ℕ → Handler (SharedFolder P F H) P
  child header name = do parent ← path_of header.nodeid enoent; pure (os.join parent name)

  unfoldable pub lookup : FuseInHeader → List ℕ → Handler (SharedFolder P F H) (List ℕ)
  lookup header body = do
    name ← name_of body
    child_path ← child header name
    meta ← ask lookup_error (λ h. os.metadata h child_path)
    nodeid ← add_inode b child_path
    build_entry_out b nodeid meta

  unfoldable pub get_attr : FuseInHeader → Handler (SharedFolder P F H) (List ℕ)
  get_attr header = do
    path ← path_of header.nodeid eio
    meta ← ask any_error (λ h. os.metadata h path)
    build_attr_out b meta

  -- The file that `make_node` opens, dropped at once.
  unfoldable pub touch : ℕ → P → Handler (SharedFolder P F H) (Unit {0})
  touch mode path = do
    file ← call any_error (λ h.
        os.open_with h
          (if bit_and mode 0xF000 == 0x8000
            then create_options
            else new_options (bit_and mode 0xFFF))
          path)
    close_file os (some file)

  unfoldable pub make_node : FuseInHeader → List ℕ → Handler (SharedFolder P F H) (List ℕ)
  make_node header body = do
    mode ← u32_at body 0
    rest ← tail body 16
    name ← name_of rest
    child_path ← child header name
    touch mode child_path
    nodeid ← add_inode b child_path
    meta ← ask any_error (λ h. os.metadata h child_path)
    build_entry_out b nodeid meta

  unfoldable pub set_mode : P → ℕ → Handler (SharedFolder P F H) (Unit {0})
  set_mode path mode = do s ← server; set_host (os.set_permissions s.host path (bit_and mode 0xFFF))

  unfoldable pub make_directory : FuseInHeader → List ℕ → Handler (SharedFolder P F H) (List ℕ)
  make_directory header body = do
    mode ← u32_at body 0
    rest ← tail body 8
    name ← name_of rest
    child_path ← child header name
    call mkdir_error (λ h. os.create_dir h child_path)
    set_mode child_path mode
    nodeid ← add_inode b child_path
    meta ← ask any_error (λ h. os.metadata h child_path)
    build_entry_out b nodeid meta

  unfoldable pub make_symlink : FuseInHeader → List ℕ → Handler (SharedFolder P F H) (List ℕ)
  make_symlink header body = do
    rest ← tail body (name_len body + 1)
    name ← name_of body
    link_target ← name_of rest
    child_path ← child header name
    call any_error (λ h. os.symlink h link_target child_path)
    nodeid ← add_inode b child_path
    meta ← ask any_error (λ h. os.symlink_metadata h child_path)
    build_entry_out b nodeid meta

  unfoldable pub set_size : List ℕ → P → Handler (SharedFolder P F H) (Unit {0})
  set_size body path = do
    size ← u64_at body 16
    file ← call any_error (λ h. os.open_with h write_options path)
    s ← server
    set_host (os.close (os.set_len s.host file size).1 file)
    map_err any_error (os.set_len s.host file size).0

  unfoldable pub set_attr : FuseInHeader → List ℕ → Handler (SharedFolder P F H) (List ℕ)
  set_attr header body = do
    valid ← u32_at body 0
    path ← path_of header.nodeid eio
    (if bit_and valid 8 != 0 then set_size body path else pure tt)
    (if bit_and valid 1 != 0 then (do mode ← u32_at body 68; set_mode path mode) else pure tt)
    meta ← ask any_error (λ h. os.metadata h path)
    build_attr_out b meta

  unfoldable pub stat_fs : Handler (SharedFolder P F H) (List ℕ)
  stat_fs = pure (replicate 80 0)

  unfoldable pub unlink : FuseInHeader → List ℕ → Handler (SharedFolder P F H) (List ℕ)
  unlink header body = do
    name ← name_of body
    child_path ← child header name
    call remove_error (λ h. os.remove_file h child_path)
    pure []

  unfoldable pub rmdir : FuseInHeader → List ℕ → Handler (SharedFolder P F H) (List ℕ)
  rmdir header body = do
    name ← name_of body
    child_path ← child header name
    call remove_error (λ h. os.remove_dir h child_path)
    pure []

  unfoldable pub rename : FuseInHeader → List ℕ → Handler (SharedFolder P F H) (List ℕ)
  rename header body = do
    newdir ← u64_at body 0
    name_bytes ← tail body 8
    name ← name_of name_bytes
    newname_bytes ← tail name_bytes (name_len name_bytes + 1)
    newname ← name_of newname_bytes
    old_parent ← path_of header.nodeid enoent
    new_parent ← path_of newdir enoent
    call lookup_error (λ h. os.rename h (os.join old_parent name) (os.join new_parent newname))
    pure []

  unfoldable pub readlink : FuseInHeader → Handler (SharedFolder P F H) (List ℕ)
  readlink header = do
    path ← path_of header.nodeid enoent
    target ← ask any_error (λ h. os.read_link h path)
    pure (target ++ (0 ∷ []))

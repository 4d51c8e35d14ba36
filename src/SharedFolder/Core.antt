-- ===== src/SharedFolder/Core.antt =====
-- The requests of the FUSE server: src/platform/shared_folder/core.rs.
use ferrum_vm.Prelude.{
  ℕ, zero, suc, ◌+◌, List, [], length, take, drop, ◌==◌, ltb, true, false, if◌then◌else◌, Build, ok,
}
use ferrum_vm.Prelude.HashMap
use ferrum_vm.Prelude.Bytes.{from_le}
use ferrum_vm.SharedFolder.Host.{HostFs, enosys}
use ferrum_vm.SharedFolder.{SharedFolder}
use ferrum_vm.SharedFolder.Handlers.{Handler, done, ◌>>=◌, ◌>>◌, pure, fail, u32_at}
use ferrum_vm.SharedFolder.Wire.{FuseInHeader}
use ferrum_vm.SharedFolder.Node.{
  lookup, get_attr, make_node, make_directory, make_symlink, set_attr, stat_fs, unlink, rmdir,
  rename, readlink,
}
use ferrum_vm.SharedFolder.File.{
  create, open_file, release, read, write, fsync, open_dir, read_dir, init,
}

module _ {P F H : Type 0} where
  unfoldable pub remove_inode : ℕ → Handler (SharedFolder P F H) (Unit {0})
  remove_inode nodeid s = ok (done tt, record s { inodes = HashMap.remove s.inodes nodeid })

  unfoldable pub forget : FuseInHeader → SharedFolder P F H → SharedFolder P F H
  forget header s = record s { inodes = HashMap.remove s.inodes header.nodeid }

  -- The loop of `batch_forget`, from `offset` on, with the rounds left.
  unfoldable pub forget_each : List ℕ → ℕ → ℕ → Handler (SharedFolder P F H) (Unit {0})
  forget_each body zero offset = pure tt
  forget_each body (suc left) offset = elim (ltb (length body) (offset + 8)) [
    | true ↦ pure tt
    | false ↦ (do
      remove_inode (from_le (take 8 (drop offset body)))
      forget_each body left (offset + 16))
  ]

  unfoldable pub batch_forget : List ℕ → Handler (SharedFolder P F H) (List ℕ)
  batch_forget body = do count ← u32_at body 0; forget_each body count 8; pure []

module _ {P F H : Type 0} (b : Build) (os : HostFs P F H) where
  -- `dispatch`, with the opcodes of fuse/opcode.rs.
  unfoldable pub dispatch : FuseInHeader → List ℕ → Handler (SharedFolder P F H) (List ℕ)
  dispatch header body =
      if header.opcode == 26
      then init b os body
      else if header.opcode == 38
      then pure []
      else if header.opcode == 1
      then lookup b os header body
      else if header.opcode == 3
      then get_attr b os header
      else if header.opcode == 15
      then read b os body
      else if header.opcode == 8
      then make_node b os header body
      else if header.opcode == 9
      then make_directory b os header body
      else if header.opcode == 6
      then make_symlink b os header body
      else if header.opcode == 35
      then create b os header body
      else if header.opcode == 16
      then write b os body
      else if header.opcode == 18
      then release b os body
      else if header.opcode == 27
      then open_dir b os header
      else if header.opcode == 29
      then pure []
      else if header.opcode == 28
      then read_dir b os header body
      else if header.opcode == 4
      then set_attr b os header body
      else if header.opcode == 25
      then pure []
      else if header.opcode == 20
      then fsync b os body
      else if header.opcode == 14
      then open_file b os header body
      else if header.opcode == 17
      then stat_fs b os
      else if header.opcode == 10
      then unlink b os header body
      else if header.opcode == 11
      then rmdir b os header body
      else if header.opcode == 12
      then rename b os header body
      else if header.opcode == 5
      then readlink b os header
      else if header.opcode == 36
      then pure []
      else if header.opcode == 42
      then batch_forget body
      else fail enosys

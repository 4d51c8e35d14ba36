-- ===== src/SharedFolder/Short.antt =====
-- Requests with a body too short for their fields (src/platform/shared_folder).
use ferrum_vm.Prelude.{
  ℕ, ◌<◌, ◌≡◌, refl, Bool, true, ◌||◌, List, length, ◌==◌, arith, panic, Build, ◌⊎◌, inl, inr,
}
use ferrum_vm.SharedFolder.Host.{HostFs}
use ferrum_vm.SharedFolder.{SharedFolder}
use ferrum_vm.SharedFolder.Handlers.{Handler, ◌>>=◌, crash, slice, u64_at}
use ferrum_vm.SharedFolder.Wire.{FuseInHeader}
use ferrum_vm.SharedFolder.Node.{rename}
use ferrum_vm.SharedFolder.File.{release, read, write, fsync}
use ferrum_vm.SharedFolder.Core.{dispatch}

-- The requests whose body begins with a 64-bit number: rename, read, write, release and fsync.
abbrev pub begins_with_u64 : ℕ → Bool
begins_with_u64 opcode =
    opcode == 12 || (opcode == 15 || (opcode == 16 || (opcode == 18 || opcode == 20)))

opcode_cases :
    (n : ℕ) → begins_with_u64 n ≡ true → (n ≡ 12) ⊎ ((n ≡ 15) ⊎ ((n ≡ 16) ⊎ ((n ≡ 18) ⊎ (n ≡ 20))))
opcode_cases n h = ground arith

module _ {P F H : Type 0} (b : Build) (os : HostFs P F H) (body : List ℕ) (s : SharedFolder P F H)
    (short : length body < 8) where
  u64_at_short : u64_at {S = SharedFolder P F H} body 0 s ≡ panic
  unfolding u64_at slice crash ◌>>=◌
  u64_at_short = ground (arith, short)

  bind_short :
      {A B : Type 0} (m : Handler (SharedFolder P F H) A) (f : A → Handler (SharedFolder P F H) B)
      → m s ≡ panic
      → (m >>= f) s ≡ panic
  unfolding ◌>>=◌
  bind_short m f e = rw (◌>>=◌, e) refl

  rename_short : (header : FuseInHeader) → rename b os header body s ≡ panic
  unfolding rename
  rename_short header = bind_short (u64_at body 0) _ u64_at_short

  read_short : read b os body s ≡ panic
  unfolding read
  read_short = bind_short (u64_at body 0) _ u64_at_short

  write_short : write b os body s ≡ panic
  unfolding write
  write_short = bind_short (u64_at body 0) _ u64_at_short

  release_short : release b os body s ≡ panic
  unfolding release
  release_short = bind_short (u64_at body 0) _ u64_at_short

  fsync_short : fsync b os body s ≡ panic
  unfolding fsync
  fsync_short = bind_short (u64_at body 0) _ u64_at_short

  -- In both builds such a request with a body of less than 8 bytes panics.
  pub dispatch_short :
      (header : FuseInHeader)
      → begins_with_u64 header.opcode ≡ true
      → dispatch b os header body s ≡ panic
  unfolding dispatch
  dispatch_short header is = elim (opcode_cases header.opcode is) [
    | inl op ↦ rw op (rename_short (record header { opcode = 12 }))
    | inr (inl op) ↦ rw op read_short
    | inr (inr (inl op)) ↦ rw op write_short
    | inr (inr (inr (inl op))) ↦ rw op release_short
    | inr (inr (inr (inr op))) ↦ rw op fsync_short
  ]

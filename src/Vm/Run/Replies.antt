-- ===== src/Vm/Run/Replies.antt =====
-- What a guest's reads are answered with (src/vm/run.rs).
use ferrum_vm.Prelude.{
  ℕ, ◌≡◌, refl, Bool, true, false, Option, none, some, List, length, replicate, ◌!=◌, if◌then◌else◌,
  arith, ok, >>=-eq-ok, length-replicate, Build,
}
use ferrum_vm.DeviceMap.Io
use ferrum_vm.DeviceMap.Io.{IoDevice}
use ferrum_vm.DeviceMap.Mmio.{MmioDevice}
use ferrum_vm.DeviceMap.Routing.{NoneHas, NoneMaps, input_none, read_none}
use ferrum_vm.Vm.Run.{
  Machine, CrashReason, filled, crash, answer, io_in, mmio_read, handle_exit,
  incorrect_io_input_length,
}

length-answer :
    (mismatch : CrashReason) (fill len : ℕ) (o : Option (List ℕ)) (bytes : List ℕ)
    → answer mismatch fill len o ≡ filled bytes
    → length bytes ≡ len
unfolding answer
length-answer mismatch fill len none bytes h =
    let same : replicate len fill ≡ bytes = cc in rw⁻¹ same (length-replicate len fill)
length-answer mismatch fill len (some io_ret) bytes h =
    let same : io_ret ≡ bytes = injected (length io_ret != len) h in
    rw⁻¹ same (matching (length io_ret != len) h refl)
  where
    injected :
        (c : Bool) → (if c then crash mismatch else filled io_ret) ≡ filled bytes → io_ret ≡ bytes
    injected true e = cc
    injected false e = cc

    matching :
        (c : Bool)
        → (if c then crash mismatch else filled io_ret) ≡ filled bytes
        → (length io_ret != len) ≡ c
        → length io_ret ≡ len
    matching true e t = cc
    matching false e t = ground arith

module _ {I M W : Type 0} (b : Build) (io : IoDevice I W) (mmio : MmioDevice M W)
    (m : Machine I M W) where
  -- A port read that does not crash the vCPU fills the whole of the guest's buffer.
  length-io_in :
      (port len : ℕ) (bytes : List ℕ) (m' : Machine I M W)
      → handle_exit b io mmio m (io_in port len) ≡ ok (filled bytes, m')
      → length bytes ≡ len
  unfolding handle_exit
  length-io_in port len bytes m' h =
      let (r, e, h₁) = >>=-eq-ok (Io.input io m.io_map m.shared port len) _ h in
      length-answer incorrect_io_input_length 0xFF len r.0 bytes cc

  -- A read of a port that no device is registered for returns 0xFF in every byte, and of an address
  -- that none is registered for 0 in every byte; both leave the machine as it was.
  unmapped_reads :
      (port addr len : ℕ)
      → NoneHas m.io_map port
      → NoneMaps m.mmio_map addr
      → (handle_exit b io mmio m (io_in port len) ≡ ok (filled (replicate len 0xFF), m))
        × (handle_exit b io mmio m (mmio_read addr len) ≡ ok (filled (replicate len 0), m))
  unfolding handle_exit answer
  unmapped_reads port addr len h k = (
    rw (input_none io m.io_map m.shared port len h) refl,
    rw (read_none b mmio m.mmio_map m.shared addr len k) refl,
  )

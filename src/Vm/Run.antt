-- ===== src/Vm/Run.antt =====
-- The loop of a vCPU (src/vm/run.rs) and of the tick thread (src/vm/tick.rs). What `vcpu.fd.run()`
-- returns is given as a list, one outcome for each pass of the loop; the vCPU is one that exists.
use ferrum_vm.Prelude.{
  ℕ, Bool, true, false, Option, none, some, List, [], ◌∷◌, length, replicate, ◌==◌, ◌!=◌,
  if◌then◌else◌, Result, ok, ◌>>=◌, Build,
}
use ferrum_vm.DeviceMap.Io
use ferrum_vm.DeviceMap.Io.{IoDevice, IoDeviceRegion}
use ferrum_vm.DeviceMap.Mmio
use ferrum_vm.DeviceMap.Mmio.{MmioDevice, MmioDeviceRegion}
use ferrum_vm.Irq.{IrqHandler, IrqCommand, handle_irqs}
pub mod Replies

-- The reasons that `run` returns, two of which it never gives.
pub data CrashReason : Type 0 where
  hlt failed_entry unhandled_exit no_io_data_returned incorrect_io_input_length
        no_mmio_data_returned incorrect_mmio_read_length shutdown run_error :
      CrashReason

-- `VcpuExit`, the outcomes with a retry (`EINTR`, `EAGAIN`) and an error beside it.
pub data VcpuExit : Type 0 where
  exit_hlt exit_fail_entry exit_shutdown exit_other retry error : VcpuExit
  io_out : ℕ → List ℕ → VcpuExit
  io_in : ℕ → ℕ → VcpuExit
  mmio_write : ℕ → List ℕ → VcpuExit
  mmio_read : ℕ → ℕ → VcpuExit

-- What the vCPU goes on with: nothing, the bytes of its read, or a crash.
pub data Reply : Type 0 where
  resume : Reply
  filled : List ℕ → Reply
  crash : CrashReason → Reply

-- The devices, and the state that they share.
pub record Machine (I M W : Type 0) : Type 0 where
  pub io_map : List (IoDeviceRegion I)
  pub mmio_map : List (MmioDeviceRegion M)
  pub shared : W

-- The buffer of a read, from what the device map returned.
unfoldable pub answer : CrashReason → ℕ → ℕ → Option (List ℕ) → Reply
answer mismatch fill len none = filled (replicate len fill)
answer mismatch fill len (some io_ret) =
    if length io_ret != len then crash mismatch else filled io_ret

module _ {I M W : Type 0} (b : Build) (io : IoDevice I W) (mmio : MmioDevice M W) where
  unfoldable pub handle_exit : Machine I M W → VcpuExit → Result (Reply × Machine I M W)
  handle_exit m exit_hlt = ok (resume, m)
  handle_exit m retry = ok (resume, m)
  handle_exit m error = ok (crash run_error, m)
  handle_exit m exit_fail_entry = ok (crash failed_entry, m)
  handle_exit m exit_shutdown = ok (crash shutdown, m)
  handle_exit m exit_other = ok (crash unhandled_exit, m)
  handle_exit m (io_out port bytes) = if port == 0x500 then ok (crash hlt, m) else (do
    (_, io_map, shared) ← Io.output io m.io_map m.shared port bytes
    ok (resume, record m { io_map = io_map; shared = shared }))
  handle_exit m (io_in port len) = do
    (io_ret, io_map, shared) ← Io.input io m.io_map m.shared port len
    ok (
      answer incorrect_io_input_length 0xFF len io_ret,
      record m { io_map = io_map; shared = shared },
    )
  handle_exit m (mmio_write addr bytes) = do
    (_, mmio_map, shared) ← Mmio.write b mmio m.mmio_map m.shared addr bytes
    ok (resume, record m { mmio_map = mmio_map; shared = shared })
  handle_exit m (mmio_read addr len) = do
    (io_ret, mmio_map, shared) ← Mmio.read b mmio m.mmio_map m.shared addr len
    ok (
      answer incorrect_mmio_read_length 0 len io_ret,
      record m { mmio_map = mmio_map; shared = shared },
    )

  -- A crash ends the loop; anything else goes on.
  unfoldable pub follow :
      (Machine I M W → Result (Option CrashReason × Machine I M W))
      → Reply × Machine I M W
      → Result (Option CrashReason × Machine I M W)
  follow onward (crash reason, m) = ok (some reason, m)
  follow onward (resume, m) = onward m
  follow onward (filled bytes, m) = onward m

  -- The loop: the crash, when one of the exits is one.
  unfoldable pub run : Machine I M W → List VcpuExit → Result (Option CrashReason × Machine I M W)
  run m [] = ok (none, m)
  run m (exit ∷ exits) = handle_exit m exit >>= follow (λ m'. run m' exits)

  -- One pass of the tick thread: the devices, then the interrupts that they queued.
  unfoldable pub tick_pass :
      (W → IrqHandler)
      → (W → IrqHandler → W)
      → Machine I M W
      → Result (List IrqCommand × Machine I M W)
  tick_pass irqs set_irqs m = do
    (mmio_map, shared₁) ← Mmio.tick b mmio m.mmio_map m.shared
    (io_map, shared₂) ← Io.tick io m.io_map shared₁
    let (commands, emptied) = handle_irqs (irqs shared₂) in
        ok (
          commands,
          record { io_map = io_map; mmio_map = mmio_map; shared = set_irqs shared₂ emptied },
        )

-- ===== src/Virtio/Gpu/Device.antt =====
-- The two queues of the GPU device, and its trait: `tick` and the rest of
-- src/devices/virtio/devices/gpu.rs.
use ferrum_vm.Prelude.{
  ℕ, ◌+◌, ◌%◌, bit_and, Bool, true, false, not, ◌||◌, Option, none, some, List, [], ◌∷◌, replicate,
  min, ◌==◌, ◌!=◌, leb, if◌then◌else◌, Result, ok, ◌>>=◌, unwrap, Build, u32_mod,
}
use ferrum_vm.Memory.{GuestMemory, read_guest_memory_alloc}
use ferrum_vm.Virtqueue.{VirtqDesc, get_descriptor, push_used}
use ferrum_vm.Virtqueue.Loop.{Io, while_avail}
use ferrum_vm.Virtio.{VirtioDevice}
use ferrum_vm.Virtio.Gpu.{
  DisplayBackend, max_scanouts, max_request_bytes, new_config, config_to_bytes, write_field,
  reset_config,
}
use ferrum_vm.Virtio.Gpu.Wire.{hdr_from_bytes}
use ferrum_vm.Virtio.Gpu.Gather.{gather_control_request, write_body, write_response}
use ferrum_vm.Virtio.Gpu.Command.{
  VirtioGpu, GpuResponse, header, raw, empty_scanout, resp_ok_nodata, resp_err_unsupported,
}
use ferrum_vm.Virtio.Gpu.Command.Run.{run_command}
pub mod Answers
pub mod Resources

unfoldable pub new : {W : Type 0} → W → Result (VirtioGpu W)
new window = do
  config ← unwrap (new_config 0 1 0)
  ok (record {
    guest_memory = false;
    config = config;
    window = window;
    resources = [];
    scanouts = replicate max_scanouts empty_scanout;
  })

-- The header's `typ`, or 0 where there is none, and the response to it.
unfoldable pub cursor_typ : List ℕ → ℕ
cursor_typ bytes = elim (hdr_from_bytes bytes) [ none ↦ 0 | some hdr ↦ hdr.typ ]

unfoldable pub cursor_response : List ℕ → ℕ
cursor_response bytes =
    if cursor_typ bytes == 0x010B || cursor_typ bytes == 0x010C
    then resp_ok_nodata
    else resp_err_unsupported

module _ {W : Type 0} (b : Build) (display : DisplayBackend W) where
  -- `push_used` at the end of a round.
  unfoldable pub retire : Io (VirtioGpu W) → ℕ → ℕ → Result (Bool × Io (VirtioGpu W))
  retire s head written = do
    (mem, queue) ← push_used b s.mem s.queue head (written % u32_mod)
    ok (true, record s { mem = mem; queue = queue })

  unfoldable pub write_reply : GuestMemory → VirtqDesc → GpuResponse → Result (ℕ × GuestMemory)
  write_reply mem desc (raw buf) = write_body b mem desc buf
  write_reply mem desc (header typ) = write_response b mem desc typ

  -- A round of the loop over the control queue.
  unfoldable pub control_request : Io (VirtioGpu W) → ℕ → Result (Bool × Io (VirtioGpu W))
  control_request s head = do
    gathered ← gather_control_request b s.mem s.queue head
    elim gathered [
      | none ↦ retire s head 0
      | some (bytes, desc) ↦ elim (hdr_from_bytes bytes) [
        | none ↦ retire s head 0
        | some hdr ↦ (do
          (response, d) ← run_command b s.mem display hdr.typ s.device bytes
          (written, mem) ← write_reply s.mem desc response
          retire (record s { mem = mem; device = d }) head written)
      ]
    ]

  -- A round of the loop over the cursor queue.
  unfoldable pub cursor_request : Io (VirtioGpu W) → ℕ → Result (Bool × Io (VirtioGpu W))
  cursor_request s head = do
    header_desc ← get_descriptor b s.mem s.queue head
    if bit_and header_desc.flags 1 == 0
          || (bit_and header_desc.flags 2 != 0 || leb s.queue.size header_desc.next)
        then retire s head 0
        else (do
          resp_desc ← get_descriptor b s.mem s.queue header_desc.next
          bytes ←
              read_guest_memory_alloc b s.mem header_desc.addr
                (min header_desc.len max_request_bytes)
          (written, mem) ← write_response b s.mem resp_desc (cursor_response bytes)
          retire (record s { mem = mem }) head written)

  unfoldable pub tick : ℕ → Io (VirtioGpu W) → ℕ → Result (Bool × Io (VirtioGpu W))
  tick fuel s queue_sel =
      if not s.device.guest_memory
      then ok (false, s)
      else if queue_sel == 0
      then while_avail b fuel control_request s false
      else if queue_sel == 1
      then while_avail b fuel cursor_request s false
      else ok (false, s)

  unfoldable pub reset : VirtioGpu W → VirtioGpu W
  reset d = record d {
    resources = [];
    scanouts = replicate max_scanouts empty_scanout;
    config = reset_config d.config;
  }

  abbrev pub device : ℕ → VirtioDevice (VirtioGpu W)
  device fuel = record {
    virtio_type = λ d. 0x10;
    features = λ d. 0;
    negotiate_features = λ d features. d;
    pass_guest_memory = λ d. record d { guest_memory = true };
    tick = tick fuel;
    read_config = λ d len. config_to_bytes d.config len;
    write_config = λ d offset bytes. record d { config = write_field d.config offset bytes };
    update = λ d mem queues. ok (false, d, mem, queues);
    reset = reset;
  }

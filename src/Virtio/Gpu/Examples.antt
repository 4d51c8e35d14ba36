-- ===== src/Virtio/Gpu/Examples.antt =====
-- Runs of the GPU device (src/devices/virtio/devices/gpu.rs).
use ferrum_vm.Prelude.{
  ◌+◌, ◌≡◌, ◌↔◌, inl, arith, ℕ, refl, Bool, true, false, none, some, List, [], ◌∷◌, ◌++◌, replicate,
  Result, drop, ok, panic, no_fuel, debug,
}
use ferrum_vm.Prelude.Bytes.{le_bytes}
use ferrum_vm.Prelude.HashMap
use ferrum_vm.Prelude.Overlay.{overlay}
use ferrum_vm.Memory.{
  GuestMemory, store, in_bounds, write, read, fits, read_word_bytes, read_u16, read_u32, read_u64,
  read_regions, read_guest_memory_alloc, write_guest_memory, write_u8, write_u16, write_u32,
}
use ferrum_vm.Memory.RoundTrip.{peek}
use ferrum_vm.Virtqueue.{VirtioQueue, pop_avail, push_used, get_descriptor}
use ferrum_vm.Virtqueue.Loop.{Io, while_avail}
use ferrum_vm.Virtqueue.Loop.Balance.{IsBalanced}
use ferrum_vm.Virtio.Gpu.{DisplayBackend, new_config}
use ferrum_vm.Virtio.Gpu.Wire.{
  VirtioGpuMemEntry, VirtioGpuTransferToHost, transfer_from_bytes, create_from_bytes,
  attach_from_bytes, attach_hdr_from_bytes, mem_entry_from_bytes, mem_entries, hdr_from_bytes,
  hdr_at, hdr_to_bytes, new_hdr,
}
use ferrum_vm.Virtio.Gpu.Gather.{gather_from, gather_control_request, write_body, write_response}
use ferrum_vm.Virtio.Gpu.Gather.Chain.{Request, gather_control_request-Request}
use ferrum_vm.Virtio.Gpu.Resource.{GpuResource, new_resource, contains, read_backing_range}
use ferrum_vm.Virtio.Gpu.Resource.Backing.{AllHeld, backing_bytes, read_backing_range-eq-overlay}
use ferrum_vm.Virtio.Gpu.Command.{
  VirtioGpu, header, resp_ok_nodata, resource_create, attach_backing,
}
use ferrum_vm.Virtio.Gpu.Command.Run.{transfer_to_host, run_command}
use ferrum_vm.Virtio.Gpu.Command.Table.{IsTable}
use ferrum_vm.Virtio.Gpu.Command.Keeps.{resource_create-IsTable, attach_backing-IsTable}
use ferrum_vm.Virtio.Gpu.Command.Blit.{blit_rows, src_start, dst_start, transfer_to_host-eq-blit}
use ferrum_vm.Virtio.Gpu.Device.{new, tick, control_request, retire, write_reply}
use ferrum_vm.Virtio.Gpu.Device.Answers.{gpu_tick-IsBalanced}
use ferrum_vm.Virtio.Gpu.Device.Resources.{
  History, created, passed, ticked, new-IsTable, History-IsTable,
}

abbrev desc : ℕ → ℕ → ℕ → ℕ → List ℕ
desc addr len flags next =
    le_bytes 8 addr ++ (le_bytes 4 len ++ (le_bytes 2 flags ++ le_bytes 2 next))

abbrev hdr : ℕ → List ℕ
hdr typ = le_bytes 4 typ ++ replicate 20 0

-- Resource 1 of 2 times 2 pixels in the first format.
abbrev create_request : List ℕ
create_request = hdr 0x0101 ++ (le_bytes 4 1 ++ (le_bytes 4 1 ++ (le_bytes 4 2 ++ le_bytes 4 2)))

-- Its backing in two pages, of 10 and 6 bytes.
abbrev attach_request : List ℕ
attach_request =
    hdr 0x0106
    ++ (le_bytes 4 1
        ++ (le_bytes 4 2
            ++ (le_bytes 8 2048
                ++ (le_bytes 4 10
                    ++ (le_bytes 4 0 ++ (le_bytes 8 3000 ++ (le_bytes 4 6 ++ le_bytes 4 0)))))))

-- The whole of it.
abbrev transfer_request : List ℕ
transfer_request =
    hdr 0x0105
    ++ (le_bytes 4 0
        ++ (le_bytes 4 0
            ++ (le_bytes 4 2
                ++ (le_bytes 4 2 ++ (le_bytes 8 0 ++ (le_bytes 4 1 ++ le_bytes 4 0))))))

-- The creation in two pieces and a response, published as the first entry of a ring of four.
abbrev ram : GuestMemory
ram =
    record {
      ptr_is_null = false;
      cells =
          store (store (store (λ i. 7) 258 (1 ∷ 0 ∷ 0 ∷ 0 ∷ [])) 1024 create_request) 0
            (desc 1024 24 1 1 ++ (desc 1048 16 1 2 ++ desc 1100 24 2 0));
      mem_size = 4096;
      mem_offset = 0;
    }
    ∷ []

abbrev queue : VirtioQueue
queue = record {
  size = 4;
  ready = true;
  desc_addr = 0;
  avail_addr = 256;
  used_addr = 512;
  last_avail_idx = 0;
  last_used_idx = 0;
}

gather_control_request-Request_example :
    (gather_control_request debug ram queue 0
      ≡ ok (some (create_request, record { addr = 1100; len = 24; flags = 2; next = 0 })))
    ↔ Request debug ram queue 0 create_request
        (record { addr = 1100; len = 24; flags = 2; next = 0 })
gather_control_request-Request_example =
    gather_control_request-Request debug ram queue 0 create_request
      (record { addr = 1100; len = 24; flags = 2; next = 0 })

abbrev display : DisplayBackend ℕ
display = record { get_display_size = λ w. (640, 480); blit = λ w pixels stride rect. w + 1 }

abbrev outcome : {A : Type 0} → Result A → A → A
outcome (ok a) start = a
outcome panic start = start
outcome no_fuel start = start

abbrev fresh : VirtioGpu ℕ
fresh = record {
  guest_memory = false;
  config = record { events_read = 0; events_clear = 0; num_scanouts = 1; num_capsets = 0 };
  window = 0;
  resources = [];
  scanouts =
      replicate 16
        (record { resource_id = none; rect = record { x = 0; y = 0; width = 0; height = 0 } });
}

fresh-new : new 0 ≡ ok fresh
unfolding new new_config
fresh-new = refl

abbrev start : Io (VirtioGpu ℕ)
start = record { mem = ram; queue = queue; device = record fresh { guest_memory = true } }

abbrev created_run : Bool × Io (VirtioGpu ℕ)
created_run = outcome (tick debug display 3 start 0) (false, start)

gpu_tick-IsBalanced_example : IsBalanced queue created_run.1.queue
unfolding tick control_request retire write_reply write_body write_response run_command
    resource_create new_resource create_from_bytes hdr_from_bytes hdr_at hdr_to_bytes new_hdr
    gather_from gather_control_request while_avail pop_avail push_used get_descriptor in_bounds
    write read fits read_word_bytes read_u16 read_u32 read_u64 read_regions read_guest_memory_alloc
    write_guest_memory write_u8 write_u16 write_u32
gpu_tick-IsBalanced_example =
    gpu_tick-IsBalanced debug display 3 start 0 created_run.0 created_run.1 refl

created-History : History debug display 0 created_run.1.device
unfolding tick control_request retire write_reply write_body write_response run_command
    resource_create new_resource create_from_bytes hdr_from_bytes hdr_at hdr_to_bytes new_hdr
    gather_from gather_control_request while_avail pop_avail push_used get_descriptor in_bounds
    write read fits read_word_bytes read_u16 read_u32 read_u64 read_regions read_guest_memory_alloc
    write_guest_memory write_u8 write_u16 write_u32
created-History =
    ticked 3 start 0 created_run.0 created_run.1 (passed fresh (created fresh fresh-new)) refl

History-IsTable_example : IsTable created_run.1.device
History-IsTable_example = History-IsTable debug display 0 created-History

abbrev attached : VirtioGpu ℕ
attached = (attach_backing (resource_create fresh create_request).1 attach_request).1

attached-IsTable : IsTable attached
attached-IsTable =
    attach_backing-IsTable (resource_create fresh create_request).1 attach_request
      (resource_create-IsTable fresh create_request (new-IsTable debug display 0 fresh fresh-new))

abbrev pages : List VirtioGpuMemEntry
pages =
    record { addr = 2048; length = 10; padding = 0 }
    ∷ record { addr = 3000; length = 6; padding = 0 }
    ∷ []

abbrev resource : GpuResource
resource = record { width = 2; height = 2; backing = pages; pixels = replicate 16 0; stride = 8 }

pages-AllHeld : AllHeld ram 0 pages
pages-AllHeld = (
  inl (refl, omega arith, omega arith),
  omega arith,
  omega arith,
  (inl (refl, omega arith, omega arith), omega arith, omega arith, tt),
)

-- The eight bytes from 4 on come from both pages.
read_backing_range-eq-overlay_example :
    read_backing_range debug ram resource 4 (replicate 8 0)
    ≡ ok (overlay (replicate 8 0) 0 (drop 4 (backing_bytes ram pages)))
read_backing_range-eq-overlay_example =
    read_backing_range-eq-overlay debug ram resource 4 (replicate 8 0) pages-AllHeld

abbrev whole : VirtioGpuTransferToHost
whole = record {
  hdr = record { typ = 0x0105; flags = 0; fence_id = 0; ctx_id = 0; ring_idx = 0 };
  rect = record { x = 0; y = 0; width = 2; height = 2 };
  offset = 0;
  resource_id = 1;
}

transfer_to_host-eq-blit_example :
    transfer_to_host debug ram attached transfer_request
    ≡ ok (
      header resp_ok_nodata,
      record attached {
        resources = HashMap.insert attached.resources 1 (record resource {
          pixels =
              blit_rows
                (backing_bytes ram pages)
                8
                (src_start whole 8)
                (dst_start 8 whole.rect)
                8
                2
                0
                resource.pixels;
        });
      },
    )
unfolding transfer_from_bytes contains attach_backing resource_create new_resource create_from_bytes
    attach_from_bytes attach_hdr_from_bytes mem_entry_from_bytes mem_entries hdr_from_bytes hdr_at
    peek
transfer_to_host-eq-blit_example =
    transfer_to_host-eq-blit debug ram attached transfer_request whole resource refl refl
      attached-IsTable refl pages-AllHeld (omega arith)

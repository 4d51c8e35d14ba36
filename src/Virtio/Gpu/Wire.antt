-- ===== src/Virtio/Gpu/Wire.antt =====
-- The requests and responses of the GPU device on the wire: the packed structures of
-- src/devices/virtio/devices/gpu.rs, read from and written to bytes in place.
use ferrum_vm.Prelude.{
  ℕ, zero, suc, ◌+◌, ◌-◌, ◌/◌, Option, none, some, List, [], ◌∷◌, ◌++◌, length, take, drop,
  replicate, min, ltb, if◌then◌else◌,
}
use ferrum_vm.Prelude.Bytes.{le_bytes, from_le}
use ferrum_vm.Virtio.Gpu.{DisplayRect, empty_rect}

-- A field of a packed structure.
abbrev pub u32_at : List ℕ → ℕ → ℕ
u32_at bytes offset = from_le (take 4 (drop offset bytes))

abbrev pub u64_at : List ℕ → ℕ → ℕ
u64_at bytes offset = from_le (take 8 (drop offset bytes))

abbrev pub rect_at : List ℕ → ℕ → DisplayRect
rect_at bytes offset = record {
  x = u32_at bytes offset;
  y = u32_at bytes (offset + 4);
  width = u32_at bytes (offset + 8);
  height = u32_at bytes (offset + 12);
}

-- `from_bytes` of a structure of `size` bytes.
abbrev pub sized {ℓ} : {A : Type ℓ} → ℕ → List ℕ → A → Option A
sized size bytes value = if ltb (length bytes) size then none else some value

pub record VirtioGpuMemEntry : Type 0 where
  pub addr : ℕ
  pub length : ℕ
  pub padding : ℕ

unfoldable pub mem_entry_from_bytes : List ℕ → Option VirtioGpuMemEntry
mem_entry_from_bytes bytes =
    sized 16 bytes
      (record { addr = u64_at bytes 0; length = u32_at bytes 8; padding = u32_at bytes 12 })

pub record VirtioGpuCtrlHdr : Type 0 where
  pub typ : ℕ
  pub flags : ℕ
  pub fence_id : ℕ
  pub ctx_id : ℕ
  pub ring_idx : ℕ

unfoldable pub new_hdr : ℕ → VirtioGpuCtrlHdr
new_hdr typ = record { typ = typ; flags = 0; fence_id = 0; ctx_id = 0; ring_idx = 0 }

unfoldable pub hdr_at : List ℕ → VirtioGpuCtrlHdr
hdr_at bytes = record {
  typ = u32_at bytes 0;
  flags = u32_at bytes 4;
  fence_id = u64_at bytes 8;
  ctx_id = u32_at bytes 16;
  ring_idx = u32_at bytes 20;
}

unfoldable pub hdr_from_bytes : List ℕ → Option VirtioGpuCtrlHdr
hdr_from_bytes bytes = sized 24 bytes (hdr_at bytes)

unfoldable pub hdr_to_bytes : VirtioGpuCtrlHdr → List ℕ
hdr_to_bytes h =
    le_bytes 4 h.typ
    ++ (le_bytes 4 h.flags
        ++ (le_bytes 8 h.fence_id ++ (le_bytes 4 h.ctx_id ++ le_bytes 4 h.ring_idx)))

pub record VirtioGpuDisplayInfo : Type 0 where
  pub rect : DisplayRect
  pub enabled : ℕ
  pub flags : ℕ

-- `VirtioGpuDisplayInfo::new`, for the size that the display gives.
unfoldable pub display_info : ℕ × ℕ → VirtioGpuDisplayInfo
display_info (width, height) = record {
  rect = record { x = 0; y = 0; width = width; height = height };
  enabled = 1;
  flags = 0;
}

unfoldable pub empty_info : VirtioGpuDisplayInfo
empty_info = record { rect = empty_rect; enabled = 0; flags = 0 }

unfoldable pub info_to_bytes : VirtioGpuDisplayInfo → List ℕ
info_to_bytes d =
    le_bytes 4 d.rect.x
    ++ (le_bytes 4 d.rect.y
        ++ (le_bytes 4 d.rect.width
            ++ (le_bytes 4 d.rect.height ++ (le_bytes 4 d.enabled ++ le_bytes 4 d.flags))))

pub record VirtioGpuDisplayInfoResponse : Type 0 where
  pub hdr : VirtioGpuCtrlHdr
  pub display_list : List VirtioGpuDisplayInfo

unfoldable pub display_response : List VirtioGpuDisplayInfo → VirtioGpuDisplayInfoResponse
display_response displays = record {
  hdr = new_hdr 0x1101;
  display_list = take 16 displays ++ replicate (16 - min (length displays) 16) empty_info;
}

unfoldable pub infos_to_bytes : List VirtioGpuDisplayInfo → List ℕ
infos_to_bytes [] = []
infos_to_bytes (d ∷ ds) = info_to_bytes d ++ infos_to_bytes ds

unfoldable pub response_to_bytes : VirtioGpuDisplayInfoResponse → List ℕ
response_to_bytes r = hdr_to_bytes r.hdr ++ infos_to_bytes r.display_list

pub record VirtioGpuResourceCreate2D : Type 0 where
  pub hdr : VirtioGpuCtrlHdr
  pub resource_id : ℕ
  pub format : ℕ
  pub width : ℕ
  pub height : ℕ

unfoldable pub create_from_bytes : List ℕ → Option VirtioGpuResourceCreate2D
create_from_bytes bytes = sized 40 bytes (record {
  hdr = hdr_at bytes;
  resource_id = u32_at bytes 24;
  format = u32_at bytes 28;
  width = u32_at bytes 32;
  height = u32_at bytes 36;
})

pub record VirtioGpuResourceDrop : Type 0 where
  pub hdr : VirtioGpuCtrlHdr
  pub resource_id : ℕ

unfoldable pub drop_from_bytes : List ℕ → Option VirtioGpuResourceDrop
drop_from_bytes bytes =
    sized 28 bytes (record { hdr = hdr_at bytes; resource_id = u32_at bytes 24 })

pub record VirtioGpuSetScanout : Type 0 where
  pub hdr : VirtioGpuCtrlHdr
  pub rect : DisplayRect
  pub scanout_id : ℕ
  pub resource_id : ℕ

unfoldable pub set_scanout_from_bytes : List ℕ → Option VirtioGpuSetScanout
set_scanout_from_bytes bytes = sized 48 bytes (record {
  hdr = hdr_at bytes;
  rect = rect_at bytes 24;
  scanout_id = u32_at bytes 40;
  resource_id = u32_at bytes 44;
})

-- 52 bytes, as the structure is packed.
pub record VirtioGpuTransferToHost : Type 0 where
  pub hdr : VirtioGpuCtrlHdr
  pub rect : DisplayRect
  pub offset : ℕ
  pub resource_id : ℕ

unfoldable pub transfer_from_bytes : List ℕ → Option VirtioGpuTransferToHost
transfer_from_bytes bytes = sized 52 bytes (record {
  hdr = hdr_at bytes;
  rect = rect_at bytes 24;
  offset = u64_at bytes 40;
  resource_id = u32_at bytes 48;
})

pub record VirtioGpuResourceFlush : Type 0 where
  pub hdr : VirtioGpuCtrlHdr
  pub rect : DisplayRect
  pub resource_id : ℕ

unfoldable pub flush_from_bytes : List ℕ → Option VirtioGpuResourceFlush
flush_from_bytes bytes =
    sized 44 bytes
      (record { hdr = hdr_at bytes; rect = rect_at bytes 24; resource_id = u32_at bytes 40 })

pub record VirtioGpuBackingAttachHdr : Type 0 where
  pub hdr : VirtioGpuCtrlHdr
  pub resource_id : ℕ
  pub nr_entries : ℕ

unfoldable pub attach_hdr_from_bytes : List ℕ → Option VirtioGpuBackingAttachHdr
attach_hdr_from_bytes bytes =
    sized 32 bytes
      (record { hdr = hdr_at bytes; resource_id = u32_at bytes 24; nr_entries = u32_at bytes 28 })

pub record VirtioGpuBackingAttach : Type 0 where
  pub hdr : VirtioGpuBackingAttachHdr
  pub mem_entries : List VirtioGpuMemEntry

-- The loop over `mem_entries_cnt`, from the bytes of its first entry on.
unfoldable pub mem_entries : ℕ → List ℕ → Option (List VirtioGpuMemEntry)
mem_entries zero rest = some []
mem_entries (suc n) rest = elim (mem_entry_from_bytes (take 16 rest)) [
  | none ↦ none
  | some e ↦ elim (mem_entries n (drop 16 rest)) [ none ↦ none | some es ↦ some (e ∷ es) ]
]

unfoldable pub attach_from_bytes : List ℕ → Option VirtioGpuBackingAttach
attach_from_bytes bytes = elim (attach_hdr_from_bytes bytes) [
  | none ↦ none
  | some hdr ↦
      elim (mem_entries (min hdr.nr_entries (length (drop 32 bytes) / 16)) (drop 32 bytes)) [
        | none ↦ none
        | some entries ↦ some (record { hdr = hdr; mem_entries = entries })
      ]
]

pub record VirtioGpuResourceDetachBacking : Type 0 where
  pub hdr : VirtioGpuCtrlHdr
  pub resource_id : ℕ

unfoldable pub detach_from_bytes : List ℕ → Option VirtioGpuResourceDetachBacking
detach_from_bytes bytes =
    sized 28 bytes (record { hdr = hdr_at bytes; resource_id = u32_at bytes 24 })

-- ===== src/Config.antt =====
-- The memory map for the firmware: src/machine_config/mem_map.rs, and inject_memmap of
-- src/machine_config/machine_config.rs.
use ferrum_vm.Prelude.{
  ℕ, List, [], ◌∷◌, ◌++◌, length, leb, if◌then◌else◌, Result, ok, panic, ◌>>=◌, Build, sub_word,
  u64_mod, u32_mod, ◌%◌,
}
use ferrum_vm.Prelude.Bytes.{le_bytes}
use ferrum_vm.Acpi.{Binary, binary}
pub mod Map
pub mod Tables
mod Examples

pub record MemoryRegionConfig : Type 0 where
  pub mem_size : ℕ
  pub mem_offset : ℕ

pub data MemType : Type 0 where
  reserved loader_code loader_data boot_services_code boot_services_data runtime_services_code
        runtime_services_data conventional_memory unusable acpi_reclaim_memory acpi_memory_nvs
        mmio :
      MemType

-- `mem_type as u32`.
unfoldable pub as_u32 : MemType → ℕ
as_u32 reserved = 0
as_u32 loader_code = 1
as_u32 loader_data = 2
as_u32 boot_services_code = 3
as_u32 boot_services_data = 4
as_u32 runtime_services_code = 5
as_u32 runtime_services_data = 6
as_u32 conventional_memory = 7
as_u32 unusable = 8
as_u32 acpi_reclaim_memory = 9
as_u32 acpi_memory_nvs = 10
as_u32 mmio = 11

pub record MemMap : Type 0 where
  pub start : ℕ
  pub end : ℕ
  pub mem_type : ℕ

unfoldable pub map_bytes : MemMap → List ℕ
map_bytes m = le_bytes 8 m.start ++ (le_bytes 8 m.end ++ le_bytes 4 m.mem_type)

pub record MemMapHeader : Type 0 where
  pub mgk_num : ℕ
  pub length : ℕ

unfoldable pub header_bytes : MemMapHeader → List ℕ
header_bytes h = le_bytes 4 h.mgk_num ++ le_bytes 4 h.length

unfoldable pub entry : ℕ → ℕ → MemType → MemMap
entry start end mem_type = record { start = start; end = end; mem_type = as_u32 mem_type }

abbrev pub apic_reserved_start : ℕ
apic_reserved_start = 0xFEC00000

abbrev pub apic_reserved_end : ℕ
apic_reserved_end = 0xFEE01000

unfoldable pub entries : ℕ → List MemMap
entries ram_end =
    entry 0x00000 0x00500 reserved
    ∷ entry 0x00500 0x9F000 conventional_memory
    ∷ entry 0x9F000 0xA0000 acpi_reclaim_memory
    ∷ entry 0xA0000 0x100000 reserved
    ∷ entry 0x100000 0x200000 boot_services_code
    ∷ entry 0x200000 0x3000000 conventional_memory
    ∷ entry 0x3000000 0x4000000 runtime_services_data
    ∷ entry 0x4000000 apic_reserved_start conventional_memory
    ∷ entry apic_reserved_start apic_reserved_end reserved
    ∷ entry apic_reserved_end ram_end conventional_memory
    ∷ entry 0x400000000 0x400010000 mmio
    ∷ []

-- `sort_by_key(|m| m.start)`, which keeps the order of equal keys.
unfoldable pub insert : MemMap → List MemMap → List MemMap
insert m [] = m ∷ []
insert m (n ∷ ns) = let rest = insert m ns in if leb m.start n.start then m ∷ n ∷ ns else n ∷ rest

unfoldable pub sort_by_start : List MemMap → List MemMap
sort_by_start [] = []
sort_by_start (m ∷ ms) = insert m (sort_by_start ms)

unfoldable pub all_bytes : List MemMap → List ℕ
all_bytes [] = []
all_bytes (m ∷ ms) = map_bytes m ++ all_bytes ms

unfoldable pub memmap_bytes : List MemMap → List ℕ
memmap_bytes mem_map =
    header_bytes (record { mgk_num = 0xFE02FE02; length = length mem_map % u32_mod })
    ++ all_bytes mem_map

-- `memory_regions[0]` panics without a region.
unfoldable pub inject_memmap : Build → List MemoryRegionConfig → List Binary → Result (List Binary)
inject_memmap b [] binaries = panic
inject_memmap b (r ∷ rs) binaries = do
  ram_end ← sub_word b u64_mod r.mem_size r.mem_offset
  ok (binaries ++ (binary (memmap_bytes (sort_by_start (entries ram_end))) 0x7000 ∷ []))

-- ===== src/Config/Examples.antt =====
-- Runs of the memory map (src/machine_config).
use ferrum_vm.Prelude.{ℕ, ◌-◌, ◌*◌, ◌≡◌, List, [], ◌∷◌, ◌++◌, take, length, arith, ok, some, debug}
use ferrum_vm.Acpi.{binary}
use ferrum_vm.Config.{MemMap, MemoryRegionConfig, inject_memmap}
use ferrum_vm.Config.Tables.{inject_acpi_tables}
use ferrum_vm.Config.Tables.Chain.{tables, IsChain, inject_acpi_tables-IsChain}
use ferrum_vm.Config.Map.{Tiles, read_map, inject_memmap-Tiles}

-- The 4 GiB of the default machine.
abbrev four_gib : MemoryRegionConfig
four_gib = record { mem_size = 4 * 1024 * 1024 * 1024; mem_offset = 0 }

inject_memmap-Tiles_example :
    (bytes : List ℕ) × (ms : List MemMap) × (inject_memmap debug (four_gib ∷ []) []
      ≡ ok ([] ++ (binary bytes 0x7000 ∷ [])))
    × (read_map bytes ≡ (0xFE02FE02, ms))
    × Tiles 0 (take 10 ms) (four_gib.mem_size - four_gib.mem_offset)
    × (length bytes ≡ 228)
inject_memmap-Tiles_example = inject_memmap-Tiles debug four_gib [] [] (omega arith) (omega arith)

inject_acpi_tables-IsChain_example :
    (fadt : List ℕ) × (madt : List ℕ) × (rsdp : List ℕ) × (xsdt : List ℕ) × (inject_acpi_tables
        debug
        (some (0x44 ∷ 0x53 ∷ []))
        8
        []
      ≡ ok ([] ++ tables (0x44 ∷ 0x53 ∷ []) fadt madt rsdp xsdt))
    × IsChain 8 fadt madt rsdp xsdt
inject_acpi_tables-IsChain_example =
    inject_acpi_tables-IsChain debug (0x44 ∷ 0x53 ∷ []) 8 [] (omega arith)

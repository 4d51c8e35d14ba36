-- ===== src/Acpi/Examples.antt =====
-- Runs of the builders of the ACPI tables (src/machine_config/acpi).
use ferrum_vm.Prelude.{ok, ℕ, List, take, ◌≡◌, [], ◌∷◌, arith, Returns, release}
use ferrum_vm.Acpi.Rsdp.{build_tables-IsTable}
use ferrum_vm.Acpi.{binary, sum_bytes, build_fadt, build_rsdp, build_xsdt, build_madt}
use ferrum_vm.Acpi.Checksum.{IsTable}
use ferrum_vm.Acpi.Madt.{IsMadt, build_madt-IsMadt}

build_madt-IsMadt_example :
    (bytes : List ℕ) × (build_madt release 2 ≡ ok (binary bytes 0xE0500)) × IsMadt 2 bytes
build_madt-IsMadt_example = build_madt-IsMadt release 2 (omega arith)

build_tables-IsTable_example :
    Returns (build_fadt 0xE0800) (λ r. IsTable 244 r.bytes)
    × Returns (build_xsdt (0xE0400 ∷ 0xE0500 ∷ [])) (λ r. IsTable 52 r.bytes)
    × Returns (build_rsdp 0xE00E0) (λ r. IsTable 36 r.bytes × (sum_bytes (take 20 r.bytes) ≡ 0))
build_tables-IsTable_example = build_tables-IsTable 0xE0800 0xE00E0 (0xE0400 ∷ 0xE0500 ∷ [])

-- ===== src/Config/Tables.antt =====
-- The ACPI tables of a machine: inject_acpi_tables of src/machine_config/machine_config.rs, and
-- src/machine_config/acpi/dsdt.rs. The content of the file acpi/DSDT.aml is a parameter, none where
-- reading it fails.
use ferrum_vm.Prelude.{ℕ, Option, List, [], ◌∷◌, ◌++◌, Result, ok, ◌>>=◌, unwrap, Build}
use ferrum_vm.Acpi.{Binary, binary, build_fadt, build_madt, build_xsdt, build_rsdp}
pub mod Chain

unfoldable pub load_dsdt : Option (List ℕ) → Result Binary
load_dsdt file = do dsdt ← unwrap file; ok (binary dsdt 0xE0800)

unfoldable pub inject_acpi_tables : Build → Option (List ℕ) → ℕ → List Binary → Result (List Binary)
unfolding load_dsdt
inject_acpi_tables b file total_vcpus binaries = do
  dsdt_bin ← load_dsdt file
  fadt_bin ← build_fadt dsdt_bin.offset
  madt_bin ← build_madt b total_vcpus
  xsdt_bin ← build_xsdt (fadt_bin.offset ∷ madt_bin.offset ∷ [])
  rsdp_bin ← build_rsdp xsdt_bin.offset
  ok (binaries ++ (dsdt_bin ∷ fadt_bin ∷ madt_bin ∷ rsdp_bin ∷ xsdt_bin ∷ []))

-- ===== src/Config/Tables/Chain.antt =====
-- The ACPI tables point to one another (inject_acpi_tables of src/machine_config/machine_config.rs).
use ferrum_vm.Prelude.{
  ℕ, ◌<◌, ◌≡◌, refl, some, List, [], ◌∷◌, ◌++◌, length, take, drop, Result, ok, panic, no_fuel,
  Build,
}
use ferrum_vm.Prelude.Bytes.{from_le}
use ferrum_vm.Acpi.{
  Binary, binary, build_fadt, build_xsdt, build_rsdp, put, put_all, seal, sum_bytes, fadt_fields,
  rsdp_fields, xsdt_header, addr_fields,
}
use ferrum_vm.Acpi.Madt.{IsMadt, build_madt-IsMadt}
use ferrum_vm.Config.Tables.{inject_acpi_tables}

-- The 64-bit address at `at` of a table.
unfoldable pub pointer : List ℕ → ℕ → ℕ
pointer table at = from_le (take 8 (drop at table))

-- The bytes of a table that is built.
abbrev bytes_of : Result Binary → List ℕ
bytes_of (ok table) = table.bytes
bytes_of panic = []
bytes_of no_fuel = []

build_fadt_at :
    (bytes : List ℕ) × (build_fadt 0xE0800 ≡ ok (binary (bytes) 0xE0400))
    × (length (bytes) ≡ 244)
    × (pointer (bytes) 140 ≡ 0xE0800)
unfolding build_fadt fadt_fields put_all put seal sum_bytes pointer
build_fadt_at = (bytes_of (build_fadt 0xE0800), refl, refl, refl)

abbrev entry_addrs : List ℕ
entry_addrs = 0xE0400 ∷ 0xE0500 ∷ []

build_xsdt_at :
    (bytes : List ℕ) × (build_xsdt entry_addrs ≡ ok (binary (bytes) 0xE00E0))
    × (length (bytes) ≡ 52)
    × (pointer (bytes) 36 ≡ 0xE0400)
    × (pointer (bytes) 44 ≡ 0xE0500)
unfolding build_xsdt xsdt_header addr_fields put_all put seal sum_bytes pointer
build_xsdt_at = (bytes_of (build_xsdt entry_addrs), refl, refl, refl, refl)

build_rsdp_at :
    (bytes : List ℕ) × (build_rsdp 0xE00E0 ≡ ok (binary (bytes) 0xE0000))
    × (length (bytes) ≡ 36)
    × (pointer (bytes) 24 ≡ 0xE00E0)
unfolding build_rsdp rsdp_fields put_all put seal sum_bytes pointer
build_rsdp_at = (bytes_of (build_rsdp 0xE00E0), refl, refl, refl)

-- The tables, by their bytes, and what a guest finds through them.
pub record IsChain (n : ℕ) (fadt madt rsdp xsdt : List ℕ) : Type 0 where
  pub rsdp_size : length rsdp ≡ 36
  pub xsdt_size : length xsdt ≡ 52
  pub fadt_size : length fadt ≡ 244
  pub madt_table : IsMadt n madt
  pub rsdp_to_xsdt : pointer rsdp 24 ≡ 0xE00E0
  pub xsdt_to_fadt : pointer xsdt 36 ≡ 0xE0400
  pub xsdt_to_madt : pointer xsdt 44 ≡ 0xE0500
  pub fadt_to_dsdt : pointer fadt 140 ≡ 0xE0800

abbrev pub tables : List ℕ → List ℕ → List ℕ → List ℕ → List ℕ → List Binary
tables dsdt fadt madt rsdp xsdt =
    binary dsdt 0xE0800
    ∷ binary fadt 0xE0400
    ∷ binary madt 0xE0500
    ∷ binary rsdp 0xE0000
    ∷ binary xsdt 0xE00E0
    ∷ []

-- With fewer than 25 vCPUs and a DSDT that can be read, five tables are added behind the binaries in
-- both builds, and they form a chain: the pointer of the RSDP is the address of the XSDT, the two
-- entries of the XSDT are the addresses of the FADT and of the MADT, and the pointer of the FADT is the
-- address of the DSDT; the MADT has an enabled local APIC for each vCPU, in order, and the IOAPIC, and
-- its bytes sum to 0.
pub inject_acpi_tables-IsChain :
    (b : Build) (dsdt : List ℕ) (n : ℕ) (binaries : List Binary)
    → n < 25
    → (fadt : List ℕ) × (madt : List ℕ) × (rsdp : List ℕ) × (xsdt : List ℕ) × (inject_acpi_tables b
          (some dsdt)
          n
          binaries
        ≡ ok (binaries ++ tables dsdt fadt madt rsdp xsdt))
      × IsChain n fadt madt rsdp xsdt
unfolding inject_acpi_tables
inject_acpi_tables-IsChain b dsdt n binaries h =
    let (madt, built, madt_table) = build_madt-IsMadt b n h in
    let (fadt, fadt_built, fadt_size, fadt_to_dsdt) = build_fadt_at in
    let (xsdt, xsdt_built, xsdt_size, xsdt_to_fadt, xsdt_to_madt) = build_xsdt_at in
    let (rsdp, rsdp_built, rsdp_size, rsdp_to_xsdt) = build_rsdp_at in
    (
      fadt,
      madt,
      rsdp,
      xsdt,
      simp (fadt_built, built, xsdt_built, rsdp_built),
      record {
        rsdp_size = rsdp_size;
        xsdt_size = xsdt_size;
        fadt_size = fadt_size;
        madt_table = madt_table;
        rsdp_to_xsdt = rsdp_to_xsdt;
        xsdt_to_fadt = xsdt_to_fadt;
        xsdt_to_madt = xsdt_to_madt;
        fadt_to_dsdt = fadt_to_dsdt;
      },
    )

-- ===== src/Acpi.antt =====
-- The ACPI tables: src/machine_config/acpi/fadt.rs, madt.rs, rsdp.rs and xsdt.rs, and
-- src/machine_config/binary.rs.
use ferrum_vm.Prelude.{
  ℕ, zero, suc, ◌+◌, ◌-◌, ◌*◌, ◌%◌, ◌^◌, List, [], ◌∷◌, ◌++◌, length, take, drop, set, replicate,
  leb, if◌then◌else◌, Result, ok, panic, no_fuel, ◌>>=◌, Build, add_word, mul_word, u8_mod, u32_mod,
}
use ferrum_vm.Prelude.Bytes.{le_bytes}
pub mod Table
pub mod Checksum
pub mod Consecutive
pub mod Madt
pub mod Rsdp
mod Examples

pub record Binary : Type 0 where
  pub bytes : List ℕ
  pub offset : ℕ

abbrev pub binary : List ℕ → ℕ → Binary
binary bytes offset = record { bytes = bytes; offset = offset }

unfoldable pub reset_vector : Binary
reset_vector = binary (0xEA ∷ 0x00 ∷ 0x7E ∷ 0x00 ∷ 0x00 ∷ []) 0xFFF0

-- A statement `table[at..at + n].copy_from_slice(bytes)` or `table[at] = byte`.
pub record Field : Type 0 where
  pub at : ℕ
  pub bytes : List ℕ

abbrev pub field : ℕ → List ℕ → Field
field at bytes = record { at = at; bytes = bytes }

abbrev pub byte : ℕ → ℕ → Field
byte at b = field at (b ∷ [])

-- A field past the end of the table is a panic.
unfoldable pub put : List ℕ → Field → Result (List ℕ)
put table f =
    if leb (f.at + length f.bytes) (length table)
    then ok (take f.at table ++ (f.bytes ++ drop (f.at + length f.bytes) table))
    else panic

unfoldable pub put_all : List ℕ → List Field → Result (List ℕ)
put_all table [] = ok table
put_all table (f ∷ fs) = put table f >>= λ t. put_all t fs

-- `fold(0u8, wrapping_add)`.
unfoldable pub sum_bytes : List ℕ → ℕ
sum_bytes [] = 0
sum_bytes (b ∷ bs) = (b + sum_bytes bs) % u8_mod

abbrev pub wrapping_neg : ℕ → ℕ
wrapping_neg x = (u8_mod - x) % u8_mod

-- `table[at] = checksum`, for the sum of `summed` bytes.
unfoldable pub seal : ℕ → List ℕ → List ℕ → List ℕ
seal at summed table = set table at (wrapping_neg (sum_bytes summed))

abbrev pub ferrum : List ℕ
ferrum = 0x46 ∷ 0x45 ∷ 0x52 ∷ 0x52 ∷ 0x55 ∷ 0x4D ∷ []

unfoldable pub fadt_fields : ℕ → List Field
fadt_fields dsdt_addr =
    field 0 (0x46 ∷ 0x41 ∷ 0x43 ∷ 0x50 ∷ [])
    ∷ field 4 (le_bytes 4 244)
    ∷ byte 8 2
    ∷ byte 9 0
    ∷ field 10 ferrum
    ∷ field 16 (0x46 ∷ 0x56 ∷ 0x4D ∷ 0x5F ∷ 0x46 ∷ 0x41 ∷ 0x44 ∷ 0x54 ∷ [])
    ∷ field 24 (le_bytes 4 1)
    ∷ field 28 (0x46 ∷ 0x56 ∷ 0x4D ∷ 0x20 ∷ [])
    ∷ field 32 (le_bytes 4 1)
    ∷ field 36 (le_bytes 4 0)
    ∷ field 40 (le_bytes 4 (dsdt_addr % u32_mod))
    ∷ field 46 (le_bytes 2 9)
    ∷ field 48 (le_bytes 4 0xB2)
    ∷ byte 52 0xF1
    ∷ byte 53 0xF0
    ∷ field 56 (le_bytes 4 0x0600)
    ∷ field 64 (le_bytes 4 0x0604)
    ∷ field 76 (le_bytes 4 0x0608)
    ∷ field 80 (le_bytes 4 0x0620)
    ∷ byte 88 4
    ∷ byte 89 2
    ∷ byte 91 4
    ∷ byte 92 0x10
    ∷ byte 106 0x0D
    ∷ byte 108 0x32
    ∷ field 109 (le_bytes 2 0)
    ∷ field 112 (le_bytes 4 0x03)
    ∷ byte 116 1
    ∷ byte 117 8
    ∷ byte 118 0
    ∷ byte 119 1
    ∷ field 120 (le_bytes 8 0x0CF9)
    ∷ byte 128 0x0A
    ∷ field 132 (le_bytes 8 0)
    ∷ field 140 (le_bytes 8 dsdt_addr)
    ∷ []

unfoldable pub build_fadt : ℕ → Result Binary
build_fadt dsdt_addr = do
  fadt ← put_all (replicate 244 0) (fadt_fields dsdt_addr)
  ok (binary (seal 9 fadt fadt) 0xE0400)

unfoldable pub rsdp_fields : ℕ → List Field
rsdp_fields xsdt_addr =
    field 0 (0x52 ∷ 0x53 ∷ 0x44 ∷ 0x20 ∷ 0x50 ∷ 0x54 ∷ 0x52 ∷ 0x20 ∷ [])
    ∷ field 9 ferrum
    ∷ byte 15 0x02
    ∷ field 16 (le_bytes 4 0)
    ∷ field 20 (le_bytes 4 36)
    ∷ field 24 (le_bytes 8 xsdt_addr)
    ∷ byte 8 0
    ∷ []

unfoldable pub build_rsdp : ℕ → Result Binary
build_rsdp xsdt_addr = do
  rsdp ← put_all (replicate 36 0) (rsdp_fields xsdt_addr)
  cleared ← put (seal 8 (take 20 rsdp) rsdp) (byte 32 0)
  ok (binary (seal 32 (take 36 cleared) cleared) 0xE0000)

-- The loop over `table_addrs`.
unfoldable pub addr_fields : ℕ → List ℕ → List Field
addr_fields i [] = []
addr_fields i (addr ∷ addrs) = field (36 + i * 8) (le_bytes 8 addr) ∷ addr_fields (suc i) addrs

unfoldable pub xsdt_header : ℕ → List Field
xsdt_header total_len =
    field 0 (0x58 ∷ 0x53 ∷ 0x44 ∷ 0x54 ∷ [])
    ∷ field 4 (le_bytes 4 (total_len % u32_mod))
    ∷ byte 8 0x01
    ∷ field 10 ferrum
    ∷ field 16 (ferrum ++ (0x20 ∷ 0x20 ∷ []))
    ∷ field 24 (le_bytes 4 1)
    ∷ field 28 (0x46 ∷ 0x45 ∷ 0x52 ∷ 0x52 ∷ [])
    ∷ field 32 (le_bytes 4 1)
    ∷ []

unfoldable pub build_xsdt : List ℕ → Result Binary
build_xsdt table_addrs =
    let total_len = 36 + length table_addrs * 8 in
    put_all (replicate total_len 0) (xsdt_header total_len ++ addr_fields 0 table_addrs) >>= λ xsdt.
    ok (binary (seal 9 xsdt xsdt) 0xE00E0)

unfoldable pub madt_header : ℕ → List Field
madt_header size =
    field 0 (0x41 ∷ 0x50 ∷ 0x49 ∷ 0x43 ∷ [])
    ∷ field 4 (le_bytes 4 size)
    ∷ byte 8 2
    ∷ byte 9 0
    ∷ field 10 ferrum
    ∷ field 16 (0x46 ∷ 0x56 ∷ 0x4D ∷ 0x5F ∷ 0x4D ∷ 0x41 ∷ 0x44 ∷ 0x54 ∷ [])
    ∷ field 24 (le_bytes 4 1)
    ∷ field 28 (0x46 ∷ 0x56 ∷ 0x4D ∷ 0x20 ∷ [])
    ∷ field 32 (le_bytes 4 1)
    ∷ field 36 (le_bytes 4 0xFEE00000)
    ∷ field 40 (le_bytes 4 1)
    ∷ []

-- The loop over the vCPUs from `vcpu_id` on, `left` of them, with the IOAPIC after them.
unfoldable pub madt_entries : ℕ → ℕ → ℕ → List Field
madt_entries offset vcpu_id zero =
    byte offset 1
    ∷ byte (offset + 1) 12
    ∷ byte (offset + 2) 0
    ∷ byte (offset + 3) 0
    ∷ field (offset + 4) (le_bytes 4 0xFEC00000)
    ∷ field (offset + 8) (le_bytes 4 0)
    ∷ []
madt_entries offset vcpu_id (suc left) =
    byte offset 0
    ∷ byte (offset + 1) 8
    ∷ byte (offset + 2) vcpu_id
    ∷ byte (offset + 3) vcpu_id
    ∷ field (offset + 4) (le_bytes 4 1)
    ∷ madt_entries (offset + 8) (suc vcpu_id) left

-- `44 + vcpu_num * 8 + 12` on `u8`.
unfoldable pub madt_size : Build → ℕ → Result ℕ
madt_size b vcpu_num = do
  entries ← mul_word b u8_mod vcpu_num 8
  start ← add_word b u8_mod 44 entries
  add_word b u8_mod start 12

unfoldable pub build_madt : Build → ℕ → Result Binary
build_madt b vcpu_num = do
  size ← madt_size b vcpu_num
  madt ← put_all (replicate size 0) (madt_header size ++ madt_entries 44 0 vcpu_num)
  ok (binary (seal 9 madt madt) 0xE0500)

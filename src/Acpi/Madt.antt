-- ===== src/Acpi/Madt.antt =====
-- The MADT and the number of vCPUs (src/machine_config/acpi/madt.rs).
use ferrum_vm.Prelude.{
  ℕ, zero, suc, ◌+◌, ◌*◌, ◌≤◌, ◌<◌, ◌≡◌, refl, true, ◌++◌, arith, ok, panic, length-replicate, ap,
  sym, ◌∙◌, length, length-append, take, drop, [], ◌∷◌, Returns, Build, debug, List, replicate,
}
use ferrum_vm.Acpi.{madt_size, madt_header, madt_entries, build_madt, binary, seal, put_all}
use ferrum_vm.Prelude.Bytes.{from_le, from_le-le_bytes}
use ferrum_vm.Acpi.Consecutive.{
  AreConsecutive, joined, put_all-joined, AreConsecutive-append, joined-append,
}
use ferrum_vm.Acpi.Table.{all_clear?, all_clear?-append, all_clear?_mono}
use ferrum_vm.Acpi.Checksum.{IsTable, sealed, get_or-zeros}

madt_header-clear : (n : ℕ) → all_clear? 9 44 (madt_header n) ≡ true
unfolding madt_header
madt_header-clear n = refl

madt_entries-clear :
    (n offset vcpu_id left : ℕ)
    → 9 < offset
    → offset + left * 8 + 12 ≤ n
    → all_clear? 9 n (madt_entries offset vcpu_id left) ≡ true
unfolding madt_entries
madt_entries-clear n offset vcpu_id zero a h = ground arith
madt_entries-clear n offset vcpu_id (suc left) a h =
    let rest = madt_entries-clear n (offset + 8) (suc vcpu_id) left (omega arith) (omega arith) in
    rw rest (ground arith)

madt_size-eq : (b : Build) (n : ℕ) → n < 25 → madt_size b n ≡ ok (56 + n * 8)
unfolding madt_size
madt_size-eq b n h = ground arith

build_madt-sealed :
    (b : Build) (n : ℕ) → n < 25 → Returns (build_madt b n) (λ r. IsTable (56 + n * 8) r.bytes)
unfolding build_madt
build_madt-sealed b n h =
    let size = 56 + n * 8 in
    rw (madt_size-eq b n h) (
      sealed size 0xE0500 (madt_header size ++ madt_entries 44 0 n) (omega arith)
        (length-replicate size 0) (get_or-zeros size 9)
        (all_clear?-append 9 size (madt_header size) (madt_entries 44 0 n)
          (all_clear?_mono 9 44 size (madt_header size) (omega arith) (madt_header-clear size))
          (madt_entries-clear size 44 0 n (omega arith) (omega arith))))

-- The interrupt controllers as a guest reads them: the local APIC of each processor from `id` on, whose
-- number is its processor's, enabled, and then the IOAPIC at 0xFEC00000, for the interrupts from 0 on.
abbrev pub controllers : (id left : ℕ) → List ℕ
controllers id zero = 1 ∷ 12 ∷ 0 ∷ 0 ∷ 0x00 ∷ 0x00 ∷ 0xC0 ∷ 0xFE ∷ 0 ∷ 0 ∷ 0 ∷ 0 ∷ []
controllers id (suc left) = 0 ∷ 8 ∷ id ∷ id ∷ 1 ∷ 0 ∷ 0 ∷ 0 ∷ controllers (suc id) left

-- The MADT of a machine with `n` processors.
pub record IsMadt (n : ℕ) (t : List ℕ) : Type 0 where
  pub table : IsTable (56 + n * 8) t
  pub signature : take 4 t ≡ b'A' ∷ b'P' ∷ b'I' ∷ b'C' ∷ []
  pub size_field : from_le (take 4 (drop 4 t)) ≡ 56 + n * 8
  pub local_apic_address : from_le (take 4 (drop 36 t)) ≡ 0xFEE00000
  pub entries : drop 44 t ≡ controllers 0 n

madt_header-AreConsecutive : (n : ℕ) → AreConsecutive 0 (madt_header n)
unfolding madt_header
madt_header-AreConsecutive n = omega arith

madt_entries-AreConsecutive :
    (offset id left : ℕ) → AreConsecutive offset (madt_entries offset id left)
unfolding madt_entries
madt_entries-AreConsecutive offset id zero = omega arith
madt_entries-AreConsecutive offset id (suc left) =
    let same : offset + 1 + 1 + 1 + 1 + 4 ≡ offset + 8 = omega arith in
    let rest = madt_entries-AreConsecutive (offset + 8) (suc id) left in
    (refl, (refl, (omega arith, (omega arith, (omega arith, rw same rest)))))

fields-AreConsecutive : (size n : ℕ) → AreConsecutive 0 (madt_header size ++ madt_entries 44 0 n)
unfolding madt_header
fields-AreConsecutive size n =
    AreConsecutive-append 0 (madt_header size) (madt_entries 44 0 n)
      (madt_header-AreConsecutive size) (madt_entries-AreConsecutive 44 0 n)

length-madt_header : (size : ℕ) → length (joined (madt_header size)) ≡ 44
unfolding madt_header
length-madt_header size = refl

madt_entries-joined :
    (offset id left : ℕ) → joined (madt_entries offset id left) ≡ controllers id left
unfolding madt_entries
madt_entries-joined offset id zero = refl
madt_entries-joined offset id (suc left) =
    ap (λ rest. 0 ∷ 8 ∷ id ∷ id ∷ 1 ∷ 0 ∷ 0 ∷ 0 ∷ rest)
      (madt_entries-joined (offset + 8) (suc id) left)

length-controllers : (id left : ℕ) → length (controllers id left) ≡ left * 8 + 12
length-controllers id zero = omega arith
length-controllers id (suc left) = omega (arith, length-controllers (suc id) left)

-- The table before its checksum is put in.
madt_put :
    (n : ℕ)
    → put_all (replicate (56 + n * 8) 0) (madt_header (56 + n * 8) ++ madt_entries 44 0 n)
      ≡ ok (joined (madt_header (56 + n * 8)) ++ controllers 0 n)
madt_put n =
    let size = 56 + n * 8 in
    let header = joined (madt_header size) in
    let fields = madt_header size ++ madt_entries 44 0 n in
    let bytes : joined fields ≡ header ++ controllers 0 n =
      joined-append (madt_header size) (madt_entries 44 0 n)
      ∙ ap (λ rest. header ++ rest) (madt_entries-joined 44 0 n) in
    let whole : length {A = ℕ} (replicate size 0) ≡ length (joined fields) =
      length-replicate {A = ℕ} size 0
      ∙ omega (
        arith,
        length-madt_header size,
        length-controllers 0 n,
        length-append header (controllers 0 n),
      )
      ∙ sym (ap length bytes) in
    put_all-joined [] (replicate size 0) fields (fields-AreConsecutive size n) whole ∙ ap ok bytes

-- With fewer than 25 vCPUs the MADT builds in both builds at its address, and a guest finds in it, after
-- the header with the signature, the size and the address of the local APICs: an enabled local APIC for
-- each vCPU, in order and with the vCPU's number, and then the IOAPIC. Its bytes sum to 0.
pub build_madt-IsMadt :
    (b : Build) (n : ℕ)
    → n < 25
    → (bytes : List ℕ) × (build_madt b n ≡ ok (binary bytes 0xE0500)) × IsMadt n bytes
unfolding build_madt seal madt_header
build_madt-IsMadt b n h =
    let size = 56 + n * 8 in
    let t = joined (madt_header size) ++ controllers 0 n in
    (
      seal 9 t t,
      rw (madt_size-eq b n h, madt_put n) refl,
      record {
        table = rw (madt_size-eq b n h, madt_put n) at (build_madt-sealed b n h);
        signature = refl;
        size_field = from_le-le_bytes 4 size (omega arith);
        local_apic_address = refl;
        entries = refl;
      },
    )

-- In a build with overflow checks, 25 vCPUs or more panic the table's size computation.
build_madt_overflow : (n : ℕ) → 25 ≤ n → build_madt debug n ≡ panic
unfolding build_madt madt_size
build_madt_overflow n h = ground arith

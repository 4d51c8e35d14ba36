-- ===== src/Acpi/Checksum.antt =====
-- The checksums of the ACPI tables (src/machine_config/acpi).
use ferrum_vm.Prelude.{
  ℕ, zero, suc, ◌+◌, ◌*◌, ◌%◌, ◌≤◌, ◌<◌, ◌≡◌, refl, ◌∙◌, true, List, [], ◌∷◌, ◌++◌, length, set,
  get_or, replicate, arith, ok, ◌>>=◌, length-set, length-replicate, Returns, subst, u8_mod,
}
use ferrum_vm.Acpi.{
  Field, put_all, sum_bytes, seal, fadt_fields, build_fadt, build_xsdt, xsdt_header, addr_fields,
  binary,
}
use ferrum_vm.Prelude.Bytes.{length-le_bytes}
use ferrum_vm.Acpi.Table.{all_clear?, all_clear?-append, all_clear?_mono, put_all-clear}

-- A table that a guest accepts: its length, and bytes that sum to 0 modulo 256.
pub record IsTable (n : ℕ) (t : List ℕ) : Type 0 where
  pub whole : length t ≡ n
  pub sums : sum_bytes t ≡ 0

sum_bytes-set :
    (t : List ℕ) (i v : ℕ)
    → i < length t
    → get_or t i 0 ≡ 0
    → sum_bytes (set t i v) ≡ (sum_bytes t + v) % u8_mod
unfolding sum_bytes
sum_bytes-set [] i v h z = elim h [ ]
sum_bytes-set (x ∷ xs) zero v h z = omega arith
sum_bytes-set (x ∷ xs) (suc i) v h z = omega (arith, sum_bytes-set xs i v (omega arith) z)

sum_bytes_bound : (t : List ℕ) → sum_bytes t < u8_mod
unfolding sum_bytes
sum_bytes_bound [] = omega arith
sum_bytes_bound (x ∷ xs) = omega arith

pub seal-IsTable :
    (t : List ℕ) (i : ℕ) → i < length t → get_or t i 0 ≡ 0 → IsTable (length t) (seal i t t)
unfolding seal
seal-IsTable t i h z =
    let bound = sum_bytes_bound t in
    record { whole = length-set t i _; sums = sum_bytes-set t i _ h z ∙ omega arith }

-- Fields that clear byte 9 of a zeroed table, then sealed there.
pub sealed :
    (n offset : ℕ) (fs : List Field)
    → 9 < n
    → length {A = ℕ} (replicate n 0) ≡ n
    → get_or {A = ℕ} (replicate n 0) 9 0 ≡ 0
    → all_clear? 9 n fs ≡ true
    → Returns
        (put_all (replicate n 0) fs >>= λ t. ok (binary (seal 9 t t) offset))
        (λ r. IsTable n r.bytes)
sealed n offset fs h len zeroed clear =
    let (t, e, l, g) = put_all-clear (replicate n 0) 9 fs (rw len clear) zeroed in
    let whole = l ∙ len in
    rw e (subst (λ k. IsTable k (seal 9 t t)) whole (seal-IsTable t 9 (omega arith) g))

build_fadt-IsTable : (dsdt_addr : ℕ) → Returns (build_fadt dsdt_addr) (λ r. IsTable 244 r.bytes)
unfolding build_fadt fadt_fields
build_fadt-IsTable dsdt_addr =
    sealed 244 0xE0400 (fadt_fields dsdt_addr) (omega arith) refl refl refl

pub get_or-zeros : (n i : ℕ) → get_or {A = ℕ} (replicate n 0) i 0 ≡ 0
get_or-zeros zero i = refl
get_or-zeros (suc n) zero = refl
get_or-zeros (suc n) (suc i) = get_or-zeros n i

xsdt_header-clear : (n : ℕ) → all_clear? 9 36 (xsdt_header n) ≡ true
unfolding xsdt_header
xsdt_header-clear n = refl

-- The loop's fields stand after the header and inside the table.
addr_fields-clear :
    (n i : ℕ) (addrs : List ℕ)
    → 36 + (i + length addrs) * 8 ≤ n
    → all_clear? 9 n (addr_fields i addrs) ≡ true
unfolding addr_fields
addr_fields-clear n i [] h = refl
addr_fields-clear n i (a ∷ addrs) h =
    let rest = addr_fields-clear n (suc i) addrs (omega arith) in
    let width = length-le_bytes 8 a in rw rest (ground arith)

build_xsdt-IsTable :
    (addrs : List ℕ) → Returns (build_xsdt addrs) (λ r. IsTable (36 + length addrs * 8) r.bytes)
unfolding build_xsdt
build_xsdt-IsTable addrs =
    let n = 36 + length addrs * 8 in
    sealed n 0xE00E0 (xsdt_header n ++ addr_fields 0 addrs) (omega arith) (length-replicate n 0)
      (get_or-zeros n 9)
      (all_clear?-append 9 n (xsdt_header n) (addr_fields 0 addrs)
        (all_clear?_mono 9 36 n (xsdt_header n) (omega arith) (xsdt_header-clear n))
        (addr_fields-clear n 0 addrs (omega arith)))

-- The FADT builds for every address of the DSDT and is 244 bytes long, the XSDT for every list of
-- table addresses, with the length of its header and an entry for each; the bytes of each sum to 0.
pub build_fadt-xsdt-IsTable :
    (dsdt_addr : ℕ) (addrs : List ℕ)
    → Returns (build_fadt dsdt_addr) (λ r. IsTable 244 r.bytes)
      × Returns (build_xsdt addrs) (λ r. IsTable (36 + length addrs * 8) r.bytes)
build_fadt-xsdt-IsTable dsdt_addr addrs = (build_fadt-IsTable dsdt_addr, build_xsdt-IsTable addrs)

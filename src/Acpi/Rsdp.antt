-- ===== src/Acpi/Rsdp.antt =====
-- The two checksums of the RSDP (src/machine_config/acpi/rsdp.rs), and the three tables that hold
-- addresses together.
use ferrum_vm.Prelude.{
  ℕ, zero, suc, ◌≤◌, ◌<◌, ◌≡◌, refl, ap, ◌∙◌, List, [], ◌∷◌, ◌+◌, ◌*◌, ◌++◌, length, take, set,
  get_or, replicate, arith, ok, Returns, length-set, le→leb, length-take, subst,
}
use ferrum_vm.Acpi.{
  put, byte, seal, sum_bytes, wrapping_neg, rsdp_fields, build_rsdp, build_fadt, build_xsdt,
}
use ferrum_vm.Acpi.Table.{put_all-clear, spliced, length-spliced, get_or-spliced_zero}
use ferrum_vm.Acpi.Checksum.{IsTable, seal-IsTable, build_fadt-xsdt-IsTable}

take-set_inside : (t : List ℕ) (n i v : ℕ) → i < n → take n (set t i v) ≡ set (take n t) i v
take-set_inside t zero i v h = elim h [ ]
take-set_inside [] (suc n) i v h = refl
take-set_inside (x ∷ t) (suc n) zero v h = refl
take-set_inside (x ∷ t) (suc n) (suc i) v h =
    ap (λ (ys : List ℕ). x ∷ ys) (take-set_inside t n i v (omega arith))

take-set_outside : (t : List ℕ) (n i v : ℕ) → n ≤ i → take n (set t i v) ≡ take n t
take-set_outside t zero i v h = refl
take-set_outside [] (suc n) i v h = refl
take-set_outside (x ∷ t) (suc n) zero v h = elim h [ ]
take-set_outside (x ∷ t) (suc n) (suc i) v h =
    ap (λ (ys : List ℕ). x ∷ ys) (take-set_outside t n i v (omega arith))

take-take_append :
    (t ys : List ℕ) (n m : ℕ) → n ≤ m → m ≤ length t → take n (take m t ++ ys) ≡ take n t
take-take_append t ys zero m h l = refl
take-take_append t ys (suc n) zero h l = elim h [ ]
take-take_append [] ys (suc n) (suc m) h l = elim l [ ]
take-take_append (x ∷ t) ys (suc n) (suc m) h l =
    ap (λ (zs : List ℕ). x ∷ zs) (take-take_append t ys n m (omega arith) (omega arith))

take_all : (t : List ℕ) (n : ℕ) → length t ≤ n → take n t ≡ t
take_all [] zero h = refl
take_all [] (suc n) h = refl
take_all (x ∷ t) zero h = elim h [ ]
take_all (x ∷ t) (suc n) h = ap (λ (ys : List ℕ). x ∷ ys) (take_all t n (omega arith))

get_or-take : (t : List ℕ) (n i : ℕ) → i < n → get_or (take n t) i 0 ≡ get_or t i 0
get_or-take t zero i h = elim h [ ]
get_or-take [] (suc n) i h = refl
get_or-take (x ∷ t) (suc n) zero h = refl
get_or-take (x ∷ t) (suc n) (suc i) h = get_or-take t n i (omega arith)

-- The first checksum: the sealed prefix sums to 0.
prefix_sums :
    (t : List ℕ) → length t ≡ 36 → get_or t 8 0 ≡ 0 → sum_bytes (take 20 (seal 8 (take 20 t) t)) ≡ 0
unfolding seal
prefix_sums t l z =
    let short : length (take 20 t) ≡ 20 = omega (arith, length-take 20 t) in
    let sealed_prefix =
      seal-IsTable (take 20 t) 8 (omega arith) (get_or-take t 20 8 (omega arith) ∙ z) in
    rw (take-set_inside t 20 8 (wrapping_neg (sum_bytes (take 20 t))) (omega arith))
      sealed_prefix.sums

length-seal : (i : ℕ) (summed t : List ℕ) → length (seal i summed t) ≡ length t
unfolding seal
length-seal i summed t = length-set t i (wrapping_neg (sum_bytes summed))

-- The second checksum, put behind the prefix, keeps the first.
take-resealed :
    (u : List ℕ)
    → length u ≡ 36
    → take 20 (seal 32 (take 36 (spliced u (byte 32 0))) (spliced u (byte 32 0))) ≡ take 20 u
unfolding seal spliced
take-resealed u l =
    take-set_outside (spliced u (byte 32 0)) 20 32 _ (omega arith)
    ∙ take-take_append u _ 20 32 (omega arith) (omega arith)

put-byte_zero : (u : List ℕ) → length u ≡ 36 → put u (byte 32 0) ≡ ok (spliced u (byte 32 0))
unfolding put spliced
put-byte_zero u l = rw (le→leb 33 (length u) (omega arith)) refl

resealed-IsTable :
    (u : List ℕ)
    → length u ≡ 36
    → IsTable 36 (seal 32 (take 36 (spliced u (byte 32 0))) (spliced u (byte 32 0)))
resealed-IsTable u l =
    let w = spliced u (byte 32 0) in
    let len : length w ≡ 36 = length-spliced u (byte 32 0) (omega arith) ∙ l in
    let zeroed = get_or-spliced_zero u 32 (byte 32 0) (omega arith) refl in
    let whole = take_all w 36 (omega arith) in
    rw whole (subst (λ n. IsTable n (seal 32 w w)) len (seal-IsTable w 32 (omega arith) zeroed))

-- The RSDP builds for every address of the XSDT, is 36 bytes long, and both its first 20 bytes and
-- the whole of it sum to 0.
build_rsdp-IsTable :
    (xsdt_addr : ℕ)
    → Returns (build_rsdp xsdt_addr) (λ r. IsTable 36 r.bytes × (sum_bytes (take 20 r.bytes) ≡ 0))
unfolding build_rsdp rsdp_fields
build_rsdp-IsTable xsdt_addr =
    let (t, e, l, z) = put_all-clear (replicate 36 0) 8 (rsdp_fields xsdt_addr) refl refl in
    let u = seal 8 (take 20 t) t in
    let len : length u ≡ 36 = length-seal 8 (take 20 t) t ∙ l in
    rw (e, put-byte_zero u len)
      (resealed-IsTable u len, ap sum_bytes (take-resealed u len) ∙ prefix_sums t l z)

-- Three tables build for every address that they hold, and the bytes of each sum to 0: the FADT with
-- 244 bytes, the XSDT with its header and an entry for each table, and the RSDP with 36 bytes, of which
-- the first 20 sum to 0 too.
pub build_tables-IsTable :
    (dsdt_addr xsdt_addr : ℕ) (addrs : List ℕ)
    → Returns (build_fadt dsdt_addr) (λ r. IsTable 244 r.bytes)
      × Returns (build_xsdt addrs) (λ r. IsTable (36 + length addrs * 8) r.bytes)
      × Returns (build_rsdp xsdt_addr) (λ r. IsTable 36 r.bytes × (sum_bytes (take 20 r.bytes) ≡ 0))
build_tables-IsTable dsdt_addr xsdt_addr addrs =
    let (fadt, xsdt) = build_fadt-xsdt-IsTable dsdt_addr addrs in
    (fadt, xsdt, build_rsdp-IsTable xsdt_addr)

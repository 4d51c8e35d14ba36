-- ===== src/Vm/Cpu/Cpuid.antt =====
-- The CPUID entries that a vCPU gets (src/vm/builder.rs and filter_cpuid of src/vcpu.rs).
use ferrum_vm.Prelude.{
  ℕ, ◌+◌, ◌*◌, ◌%◌, ◌^◌, ◌<◌, ◌≡◌, refl, max, bit_and, bit_or, Bool, true, ◌&&◌, ◌||◌, List, [],
  ◌∷◌, map, ◌==◌, if◌then◌else◌, arith, u32_mod, ==_iff, ◌∙◌,
}
use ferrum_vm.Prelude.Bit.{
  all_below, all_below-holds, bit, bit-bit_and, bit-bit_or, bit-pow, bit-lt,
}
use ferrum_vm.Prelude.Bits.{bit_and_ones, bit_or_fields, zero-bit_or, bit_or-zero}
use ferrum_vm.Vm.Cpu.{CpuidEntry, supported_entry, filter_entry, filter_cpuid}

-- The mask of filter_cpuid has every bit but bit 16.
masked : ℕ → Bool
masked k = bit 0xFFFEFFFF k == (if k == 16 then 0 else 1)

masked-all : all_below 32 masked ≡ true
unfolding all_below masked
masked-all = refl

mask_bits : (k : ℕ) → k < 32 → bit 0xFFFEFFFF k ≡ (if k == 16 then 0 else 1)
unfolding masked
mask_bits k h = (==_iff _ _).0 (all_below-holds 32 masked masked-all k h)

filter_bits : (x k : ℕ) → k < 32 → bit (bit_and x 0xFFFEFFFF) k ≡ (if k == 16 then 0 else bit x k)
filter_bits x k h = ground (arith, bit-bit_and x 0xFFFEFFFF k, mask_bits k h, bit-lt x k)

long_mode_bits :
    (x k : ℕ)
    → bit (bit_or (bit_or x (2 ^ 29)) (2 ^ 20)) k ≡ (if k == 20 || k == 29 then 1 else bit x k)
long_mode_bits x k = ground (
  arith,
  bit-bit_or (bit_or x (2 ^ 29)) (2 ^ 20) k,
  bit-bit_or x (2 ^ 29) k,
  bit-pow 29 k,
  bit-pow 20 k,
  bit-lt x k,
)

apic_id_field :
    (vcpu_id x : ℕ)
    → vcpu_id < 256
    → bit_or (bit_and x 0x00FFFFFF) (vcpu_id * 2 ^ 24 % u32_mod) ≡ vcpu_id * 2 ^ 24 + x % 2 ^ 24
apic_id_field vcpu_id x h =
    let small : vcpu_id * 2 ^ 24 % u32_mod ≡ vcpu_id * 2 ^ 24 + 0 = omega arith in
    let low : 0 * 2 ^ 24 + x % 2 ^ 24 ≡ x % 2 ^ 24 = omega arith in
    let fields = bit_or_fields 24 0 vcpu_id (x % 2 ^ 24) 0 (omega arith) (omega arith) in
    rw (bit_and_ones 24 x, small)
      ((rw low at fields) ∙ omega (arith, zero-bit_or vcpu_id, bit_or-zero (x % 2 ^ 24)))

-- What the vCPU's entry says, from what KVM's said: every field that is not named is KVM's.
pub record IsOffered (vcpu_id : ℕ) (e e' : CpuidEntry) : Type 0 where
  pub function : e'.function ≡ e.function
  pub index : e'.index ≡ e.index
  pub flags : e'.flags ≡ e.flags
  pub ecx : e'.ecx ≡ e.ecx
  pub eax : e'.eax ≡ (if e.function == 0x80000000 then max e.eax 0x80000001 else e.eax)
  pub ebx : e'.ebx ≡ (if e.function == 1 then vcpu_id * 2 ^ 24 + e.ebx % 2 ^ 24 else e.ebx)
  pub edx :
      (k : ℕ)
      → k < 32
      → bit e'.edx k ≡ (
          if e.function == 1 && k == 16
          then 0
          else if e.function == 0x80000001 && (k == 20 || k == 29)
          then 1
          else bit e.edx k)

-- What new_vcpu and filter_cpuid make of one entry.
abbrev pub offer : ℕ → CpuidEntry → CpuidEntry
offer vcpu_id e = filter_entry (supported_entry vcpu_id e)

edx-offer :
    (vcpu_id : ℕ) (e : CpuidEntry) (k : ℕ)
    → k < 32
    → bit (offer vcpu_id e).edx k ≡ (
        if e.function == 1 && k == 16
        then 0
        else if e.function == 0x80000001 && (k == 20 || k == 29)
        then 1
        else bit e.edx k)
unfolding supported_entry filter_entry
edx-offer vcpu_id e k h = ground (arith, filter_bits e.edx k h, long_mode_bits e.edx k)

pub offer-IsOffered :
    (vcpu_id : ℕ) (e : CpuidEntry) → vcpu_id < 256 → IsOffered vcpu_id e (offer vcpu_id e)
unfolding supported_entry filter_entry
offer-IsOffered vcpu_id e h = record {
  function = ground arith;
  index = ground arith;
  flags = ground arith;
  ecx = ground arith;
  eax = ground arith;
  ebx = ground (arith, apic_id_field vcpu_id e.ebx h);
  edx = λ k hk. edx-offer vcpu_id e k hk;
}

-- The two lists have the same length, and the predicate holds at each place.
abbrev pub Pairwise : {A : Type 0} → (A → A → Type 0) → List A → List A → Type 0
Pairwise P [] [] = Unit {0}
Pairwise P [] (y ∷ ys) = ⊥
Pairwise P (x ∷ xs) [] = ⊥
Pairwise P (x ∷ xs) (y ∷ ys) = P x y × Pairwise P xs ys

pub cpuid-IsOffered :
    (vcpu_id : ℕ) (cpuid : List CpuidEntry)
    → vcpu_id < 256
    → Pairwise (IsOffered vcpu_id) cpuid (filter_cpuid (map (supported_entry vcpu_id) cpuid))
unfolding filter_cpuid
cpuid-IsOffered vcpu_id [] h = tt
cpuid-IsOffered vcpu_id (e ∷ es) h = (offer-IsOffered vcpu_id e h, cpuid-IsOffered vcpu_id es h)

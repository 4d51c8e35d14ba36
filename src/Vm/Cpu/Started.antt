-- ===== src/Vm/Cpu/Started.antt =====
-- What KVM is told of a new vCPU (src/vcpu.rs and new_vcpu of src/vm/builder.rs).
use ferrum_vm.Prelude.{
  ℕ, ◌+◌, ◌*◌, ◌/◌, ◌^◌, ◌<◌, ◌≡◌, ◌≢◌, refl, bit_and, bit_or, Bool, true, ◌∷◌, [], List, map,
  length, set, get_or, ◌==◌, ==_iff, if◌then◌else◌, arith, some, ok,
}
use ferrum_vm.Prelude.Bytes.{AreBytes}
use ferrum_vm.Prelude.Bit.{
  bit, bit-bit_and, bit-bit_or, bit-pow, bit-lt, all_below, all_below-holds,
}
use ferrum_vm.Vm.Cpu.{
  CpuidEntry, Kvm, VcpuCall, create_vcpu, set_cpuid2, set_sregs, set_regs,
  set_mp_state_uninitialized, set_lapic, Sregs, Segment, real_mode, real_mode_code_seg,
  real_mode_data_seg, new_vcpu, new, issue, entry_state, filter_cpuid, supported_entry,
}
use ferrum_vm.Vm.Cpu.Cpuid.{IsOffered, Pairwise, cpuid-IsOffered}
use ferrum_vm.Vm.Cpu.Lapic.{unmask_lvt0-eq-set}

-- A flat segment of real mode at 0, with the limit of 64 KiB.
pub record IsRealMode (seg : Segment) : Type 0 where
  pub base : seg.base ≡ 0
  pub selector : seg.selector ≡ 0
  pub limit : seg.limit ≡ 0xFFFF
  pub present : seg.present ≡ 1
  pub sixteen_bit : seg.db ≡ 0
  pub usable : seg.unusable ≡ 0

-- The registers from KVM's: real mode, with the rest of CR0 and of the registers as KVM has them.
pub record IsReset {R : Type 0} (old new : Sregs R) : Type 0 where
  pub protection_off : bit new.cr0 0 ≡ 0
  pub numeric_error_on : bit new.cr0 5 ≡ 1
  pub cr0_kept : (k : ℕ) → k < 64 → k ≢ 0 → k ≢ 5 → bit new.cr0 k ≡ bit old.cr0 k
  pub cr4 : new.cr4 ≡ 2 ^ 9 + 2 ^ 10
  pub code : IsRealMode new.cs
  pub executable : new.cs.type_ ≡ 0xA
  pub data_segment : IsRealMode new.ds
  pub stack : IsRealMode new.ss
  pub extra : IsRealMode new.es × IsRealMode new.fs × IsRealMode new.gs
  pub rest : new.rest ≡ old.rest

cr0_mask : ℕ → Bool
cr0_mask k = bit 0xFFFFFFFFFFFFFFFE k == (if k == 0 then 0 else 1)

cr0_mask-all : all_below 64 cr0_mask ≡ true
unfolding all_below cr0_mask
cr0_mask-all = refl

cr0_bits :
    (x k : ℕ)
    → k < 64
    → bit (bit_or (bit_and x 0xFFFFFFFFFFFFFFFE) 0x20) k
      ≡ (if k == 0 then 0 else if k == 5 then 1 else bit x k)
unfolding cr0_mask
cr0_bits x k h = ground (
  arith,
  bit-bit_or (bit_and x 0xFFFFFFFFFFFFFFFE) 0x20 k,
  bit-bit_and x 0xFFFFFFFFFFFFFFFE k,
  bit-pow 5 k,
  (==_iff _ _).0 (all_below-holds 64 cr0_mask cr0_mask-all k h),
  bit-lt x k,
)

real_mode-IsReset : {R : Type 0} (sregs : Sregs R) → IsReset sregs (real_mode sregs)
unfolding real_mode real_mode_code_seg real_mode_data_seg
real_mode-IsReset sregs = record {
  protection_off = cr0_bits sregs.cr0 0 (omega arith);
  numeric_error_on = cr0_bits sregs.cr0 5 (omega arith);
  cr0_kept = λ k h low ne. ground (arith, cr0_bits sregs.cr0 k h);
  cr4 = refl;
  code = omega arith;
  executable = refl;
  data_segment = omega arith;
  stack = omega arith;
  extra = (omega arith, omega arith, omega arith);
  rest = refl;
}

-- The call that leaves the vCPU where it starts: the first one with an entry point, in real mode with
-- interrupts on, the others waiting.
abbrev start_call : {R : Type 0} → ℕ → ℕ → VcpuCall R
start_call vcpu_id entry =
    if vcpu_id == 0
    then set_regs (record { rip = entry; rsp = 0x0FF0; rsi = 0x20000; rflags = 0x202 })
    else set_mp_state_uninitialized

-- Where KVM accepts every call, a vCPU is set up by five calls: it is created; it gets KVM's CPUID
-- entries, each with the fields that IsOffered states and no other change; it gets KVM's registers
-- reset to real mode; the first vCPU gets the entry point and every other one waits; and the mask bit
-- of LVT0 is cleared in the local APIC's bytes, of which no other changes.
pub new_vcpu-IsStarted :
    {R : Type 0} (kvm : Kvm R) (code_entry vcpu_id : ℕ) (cpuid : List CpuidEntry) (sregs : Sregs R)
    (lapic : List ℕ)
    → vcpu_id < 256
    → kvm.supported_cpuid ≡ some cpuid
    → ((calls : List (VcpuCall R)) → kvm.get_sregs calls ≡ some sregs)
    → ((calls : List (VcpuCall R)) → kvm.get_lapic calls ≡ some lapic)
    → ((calls : List (VcpuCall R)) (call : VcpuCall R) → kvm.accepts calls call ≡ true)
    → length lapic ≡ 1024
    → AreBytes lapic
    → (cpuid' : List CpuidEntry) × (sregs' : Sregs R) × (new_vcpu kvm code_entry vcpu_id
        ≡ ok (
            create_vcpu vcpu_id
            ∷ set_cpuid2 cpuid'
            ∷ set_sregs sregs'
            ∷ start_call vcpu_id code_entry
            ∷ set_lapic (set lapic 0x352 (get_or lapic 0x352 0 / 2 * 2))
            ∷ []))
      × Pairwise (IsOffered vcpu_id) cpuid cpuid'
      × IsReset sregs sregs'
unfolding new_vcpu new issue entry_state
new_vcpu-IsStarted kvm code_entry vcpu_id cpuid sregs lapic small listed held apic accepted size
      bytes =
    (
      filter_cpuid (map (supported_entry vcpu_id) cpuid),
      real_mode sregs,
      simp (listed, held, apic, accepted, unmask_lvt0-eq-set lapic (omega (arith, size)) bytes),
      cpuid-IsOffered vcpu_id cpuid small,
      real_mode-IsReset sregs,
    )

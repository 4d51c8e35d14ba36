-- ===== src/Vm/Cpu/Examples.antt =====
-- A vCPU on a host of tests (src/vcpu.rs).
use ferrum_vm.Prelude.{ℕ, ◌*◌, ◌/◌, ◌≡◌, refl, List, [], ◌∷◌, set, get_or, arith, ok}
use ferrum_vm.Vm.Cpu.{
  CpuidEntry, Sregs, create_vcpu, set_cpuid2, set_sregs, set_lapic, set_mp_state_uninitialized,
  new_vcpu, supported_entry, filter_entry,
}
use ferrum_vm.Vm.Cpu.Cpuid.{IsOffered, Pairwise}
use ferrum_vm.Vm.Cpu.Started.{IsReset, new_vcpu-IsStarted}
use ferrum_vm.Vm.Sample.{leaf, cpuid, sregs, lapic, kvm, length-lapic, lapic-AreBytes}

new_vcpu-IsStarted_example :
    (cpuid' : List CpuidEntry) × (sregs' : Sregs ℕ) × (new_vcpu kvm 0xFFF0 3
      ≡ ok (
          create_vcpu 3
          ∷ set_cpuid2 cpuid'
          ∷ set_sregs sregs'
          ∷ set_mp_state_uninitialized
          ∷ set_lapic (set lapic 0x352 (get_or lapic 0x352 0 / 2 * 2))
          ∷ []))
    × Pairwise (IsOffered 3) cpuid cpuid'
    × IsReset sregs sregs'
new_vcpu-IsStarted_example =
    new_vcpu-IsStarted kvm 0xFFF0 3 cpuid sregs lapic (omega arith) refl (λ calls. refl)
      (λ calls. refl) (λ calls call. refl) length-lapic lapic-AreBytes

-- The APIC number is in the high byte, and the PAT bit is gone.
apic_id : (filter_entry (supported_entry 3 (leaf 1))).ebx ≡ 0x03020304
unfolding filter_entry supported_entry
apic_id = refl

pat_hidden : (filter_entry (supported_entry 3 (leaf 1))).edx ≡ 0x00020000
unfolding filter_entry supported_entry
pat_hidden = refl

-- ===== src/Vm/Cpu.antt =====
-- The set-up of a vCPU: src/vcpu.rs, and `new_vcpu` of src/vm/builder.rs.
-- The calls of KVM that change the vCPU are recorded in the order in which they are made. Whether KVM
-- accepts a call, and what it answers to `get_supported_cpuid`, `get_sregs` and `get_lapic`, is the
-- parameter `Kvm`; a call that is refused is a panic, by `unwrap` or `expect`.
use ferrum_vm.Prelude.{
  ℕ, ◌+◌, ◌*◌, ◌%◌, ◌^◌, bit_and, bit_or, Bool, List, [], ◌∷◌, ◌++◌, map, Option, take, drop,
  length, ltb, leb, ◌==◌, if◌then◌else◌, Result, ok, panic, ◌>>=◌, unwrap, u32_mod,
}
use ferrum_vm.Prelude.Bytes.{le_bytes, from_le}
pub mod Cpuid
pub mod Lapic
pub mod Started
mod Examples

-- `kvm_cpuid_entry2`.
pub record CpuidEntry : Type 0 where
  pub function : ℕ
  pub index : ℕ
  pub flags : ℕ
  pub eax : ℕ
  pub ebx : ℕ
  pub ecx : ℕ
  pub edx : ℕ

-- The body of the loop of `new_vcpu` over the entries that KVM supports.
unfoldable pub supported_entry : ℕ → CpuidEntry → CpuidEntry
supported_entry vcpu_id entry =
    if entry.function == 0x80000000
    then (if ltb entry.eax 0x80000001 then record entry { eax = 0x80000001 } else entry)
    else if entry.function == 0x80000001
    then record entry { edx = bit_or (bit_or entry.edx (2 ^ 29)) (2 ^ 20) }
    else if entry.function == 1
    then record entry { ebx = bit_or (bit_and entry.ebx 0x00FFFFFF) (vcpu_id * 2 ^ 24 % u32_mod) }
    else entry

-- The body of the loop of `filter_cpuid`; `!(1 << 16)` is written out.
unfoldable pub filter_entry : CpuidEntry → CpuidEntry
filter_entry entry =
    if entry.function == 0x1 then record entry { edx = bit_and entry.edx 0xFFFEFFFF } else entry

unfoldable pub filter_cpuid : List CpuidEntry → List CpuidEntry
filter_cpuid cpuid = map filter_entry cpuid

-- `kvm_segment`, `padding` aside.
pub record Segment : Type 0 where
  pub base : ℕ
  pub limit : ℕ
  pub selector : ℕ
  pub type_ : ℕ
  pub present : ℕ
  pub dpl : ℕ
  pub db : ℕ
  pub s : ℕ
  pub l : ℕ
  pub g : ℕ
  pub avl : ℕ
  pub unusable : ℕ

unfoldable pub real_mode_code_seg : ℕ → ℕ → Segment
real_mode_code_seg base selector = record {
  base = base;
  limit = 0xFFFF;
  selector = selector;
  type_ = 0xA;
  present = 1;
  dpl = 0;
  db = 0;
  s = 1;
  l = 0;
  g = 0;
  avl = 0;
  unusable = 0;
}

unfoldable pub real_mode_data_seg : ℕ → ℕ → Segment
real_mode_data_seg base selector = record {
  base = base;
  limit = 0xFFFF;
  selector = selector;
  type_ = 0x2;
  present = 1;
  dpl = 0;
  db = 0;
  s = 1;
  l = 0;
  g = 0;
  avl = 0;
  unusable = 0;
}

-- The fields of `kvm_sregs` that are set, and the others as one value.
pub record Sregs (R : Type 0) : Type 0 where
  pub cs : Segment
  pub ds : Segment
  pub es : Segment
  pub fs : Segment
  pub gs : Segment
  pub ss : Segment
  pub cr0 : ℕ
  pub cr4 : ℕ
  pub rest : R

-- `!0x1` on 64 bits is written out.
unfoldable pub real_mode : {R : Type 0} → Sregs R → Sregs R
unfolding real_mode_code_seg real_mode_data_seg
real_mode sregs = record sregs {
  cr0 = bit_or (bit_and sregs.cr0 0xFFFFFFFFFFFFFFFE) 0x20;
  cr4 = bit_or (2 ^ 9) (2 ^ 10);
  cs = real_mode_code_seg 0 0;
  ds = real_mode_data_seg 0 0;
  es = real_mode_data_seg 0 0;
  fs = real_mode_data_seg 0 0;
  gs = real_mode_data_seg 0 0;
  ss = real_mode_data_seg 0 0;
}

-- `kvm_regs`: those that are set, where the others are 0.
pub record Regs : Type 0 where
  pub rip : ℕ
  pub rsp : ℕ
  pub rsi : ℕ
  pub rflags : ℕ

-- A call of KVM that changes the vCPU. `uninitialized` is its state KVM_MP_STATE_UNINITIALIZED.
pub data VcpuCall (R : Type 0) : Type 0 where
  create_vcpu : ℕ → VcpuCall R
  set_cpuid2 : List CpuidEntry → VcpuCall R
  set_sregs : Sregs R → VcpuCall R
  set_regs : Regs → VcpuCall R
  set_mp_state_uninitialized : VcpuCall R
  set_lapic : List ℕ → VcpuCall R

-- KVM's answers after the calls that were made. The registers of the local APIC are its bytes.
pub record Kvm (R : Type 0) : Type 0 where
  pub supported_cpuid : Option (List CpuidEntry)
  pub accepts : List (VcpuCall R) → VcpuCall R → Bool
  pub get_sregs : List (VcpuCall R) → Option (Sregs R)
  pub get_lapic : List (VcpuCall R) → Option (List ℕ)

-- The bytes of LVT0 at 0x350 with the mask bit cleared; the slices panic past the end.
unfoldable pub unmask_lvt0 : List ℕ → Result (List ℕ)
unmask_lvt0 regs =
    if leb (0x350 + 4) (length regs)
    then (let lvt0 = from_le (take 4 (drop 0x350 regs)) in
        let updated = le_bytes 4 (bit_and lvt0 0xFFFEFFFF) in
        ok (take 0x350 regs ++ (updated ++ drop 0x354 regs)))
    else panic

module _ {R : Type 0} (kvm : Kvm R) where
  unfoldable pub issue : List (VcpuCall R) → VcpuCall R → Result (List (VcpuCall R))
  issue calls call = if kvm.accepts calls call then ok (calls ++ (call ∷ [])) else panic

  -- The registers of the first vCPU, and the state of the others.
  unfoldable pub entry_state : ℕ → ℕ → VcpuCall R
  entry_state vcpu_id entry =
      if vcpu_id == 0
      then set_regs (record { rip = entry; rsp = 0x0FF0; rsi = 0x20000; rflags = 0x202 })
      else set_mp_state_uninitialized

  -- `VCPU::new`.
  unfoldable pub new : ℕ → ℕ → List CpuidEntry → Result (List (VcpuCall R))
  unfolding issue entry_state
  new vcpu_id entry cpuid = do
    created ← issue [] (create_vcpu vcpu_id)
    described ← issue created (set_cpuid2 (filter_cpuid cpuid))
    sregs ← unwrap (kvm.get_sregs described)
    segmented ← issue described (set_sregs (real_mode sregs))
    issue segmented (entry_state vcpu_id entry)

  unfoldable pub new_vcpu : ℕ → ℕ → Result (List (VcpuCall R))
  unfolding issue new
  new_vcpu code_entry vcpu_id = do
    cpuid ← unwrap kvm.supported_cpuid
    calls ← new vcpu_id code_entry (map (supported_entry vcpu_id) cpuid)
    lapic ← unwrap (kvm.get_lapic calls)
    updated ← unmask_lvt0 lapic
    issue calls (set_lapic updated)

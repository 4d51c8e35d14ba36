-- ===== src/Vm/Sample.antt =====
-- A host on which tests run: it accepts every call, and its memory is blank.
use ferrum_vm.Prelude.{
  ℕ, zero, suc, ◌≡◌, refl, true, some, List, [], ◌∷◌, length, replicate, length-replicate, arith,
}
use ferrum_vm.Prelude.Bytes.{AreBytes}
use ferrum_vm.Vm.Cpu.{CpuidEntry, Segment, Sregs, Kvm}
use ferrum_vm.Vm.Load.{Mapping}
use ferrum_vm.Vm.Setup.{Host}
use ferrum_vm.Vm.Setup.Built.{IsAccepting, IsHost}

abbrev pub leaf : ℕ → CpuidEntry
leaf function = record {
  function = function;
  index = 0;
  flags = 0;
  eax = 0x80000000;
  ebx = 0x01020304;
  ecx = 0;
  edx = 0x00030000;
}

abbrev pub cpuid : List CpuidEntry
cpuid = leaf 1 ∷ leaf 0x80000000 ∷ leaf 0x80000001 ∷ []

abbrev flat : Segment
flat = record {
  base = 0xFFFF0000;
  limit = 0xFFFF;
  selector = 0xF000;
  type_ = 0xB;
  present = 1;
  dpl = 0;
  db = 0;
  s = 1;
  l = 0;
  g = 0;
  avl = 0;
  unusable = 0;
}

abbrev pub sregs : Sregs ℕ
sregs = record {
  cs = flat;
  ds = flat;
  es = flat;
  fs = flat;
  gs = flat;
  ss = flat;
  cr0 = 0x60000011;
  cr4 = 0;
  rest = 7;
}

-- The registers of a local APIC that masks LVT0. Shut, since it has 1024 bytes.
pub lapic : List ℕ
lapic = replicate 1024 1

pub length-lapic : length lapic ≡ 1024
unfolding lapic
length-lapic = length-replicate {A = ℕ} 1024 1

ones-AreBytes : (n : ℕ) → AreBytes (replicate n 1)
ones-AreBytes zero = tt
ones-AreBytes (suc n) = (omega arith, ones-AreBytes n)

pub lapic-AreBytes : AreBytes lapic
unfolding lapic
lapic-AreBytes = ones-AreBytes 1024

abbrev pub kvm : Kvm ℕ
kvm = record {
  supported_cpuid = some cpuid;
  accepts = λ calls call. true;
  get_sregs = λ calls. some sregs;
  get_lapic = λ calls. some lapic;
}

abbrev pub mapping : Mapping
mapping = record { address = 0x7F0000000000; cells = λ a. 0 }

abbrev pub host : Host ℕ
host = record {
  opens = true;
  accepts_routing = λ entries. true;
  vcpu = λ i. kvm;
  mmap = λ regions size. some mapping;
}

pub kvm-IsAccepting : IsAccepting kvm
kvm-IsAccepting = record {
  cpuid = cpuid;
  sregs = sregs;
  lapic = lapic;
  listed = refl;
  held = λ calls. refl;
  apic = λ calls. refl;
  accepted = λ calls call. refl;
  size = length-lapic;
  bytes = lapic-AreBytes;
}

pub host-IsHost : IsHost host 0x100000000 mapping
host-IsHost = record {
  opened = refl;
  routed = λ entries. refl;
  accepting = λ i. kvm-IsAccepting;
  mapped = refl;
  below = omega arith;
  above = omega arith;
}

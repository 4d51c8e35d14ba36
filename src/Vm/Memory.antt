-- ===== src/Vm/Memory.antt =====
-- The slots of guest RAM: `new_mem` of src/vm/builder.rs. `mmap` and `set_user_memory_region` are the
-- host's; the address that `mmap` returned is the argument `userspace_mem`.
use ferrum_vm.Prelude.{
  ℕ, zero, suc, ◌+◌, ◌-◌, ◌≤◌, ◌<◌, ◌≡◌, refl, Bool, true, false, not, ◌&&◌, ◌||◌, List, [], ◌∷◌,
  ◌++◌, leb, ltb, if◌then◌else◌, arith, Result, ok, ◌>>=◌, Build, add_word, sub_word, u64_mod,
}
pub mod Slots

-- A range of addresses, its end excluded.
pub record Range : Type 0 where
  pub start : ℕ
  pub end : ℕ

abbrev pub range : ℕ → ℕ → Range
range start end = record { start = start; end = end }

abbrev pub ioapic : Range
ioapic = range 0xFEC00000 0xFEC01000

abbrev pub lapic : Range
lapic = range 0xFEE00000 0xFEE01000

-- The body of the loop over the segments, and the loop.
unfoldable pub carve_segment : Range → Range → List Range
carve_segment hole seg =
    if leb seg.end hole.start || leb hole.end seg.start
    then seg ∷ []
    else (if ltb seg.start hole.start then range seg.start hole.start ∷ [] else [])
      ++ (if ltb hole.end seg.end then range hole.end seg.end ∷ [] else [])

unfoldable pub carve : Range → List Range → List Range
carve hole [] = []
carve hole (seg ∷ segs) = carve_segment hole seg ++ carve hole segs

unfoldable pub segments : ℕ → ℕ → List Range
segments start end = carve lapic (carve ioapic (range start end ∷ []))

-- `kvm_userspace_memory_region`.
pub record Slot : Type 0 where
  pub slot : ℕ
  pub guest_phys_addr : ℕ
  pub memory_size : ℕ
  pub userspace_addr : ℕ

-- The last loop, from slot number `slot` on.
unfoldable pub slots_from : Build → ℕ → ℕ → ℕ → List Range → Result (List Slot)
slots_from b userspace_mem start slot [] = ok []
slots_from b userspace_mem start slot (seg ∷ segs) = do
  memory_size ← sub_word b u64_mod seg.end seg.start
  offset ← sub_word b u64_mod seg.start start
  userspace_addr ← add_word b u64_mod userspace_mem offset
  rest ← slots_from b userspace_mem start (suc slot) segs
  ok (
      record {
        slot = slot;
        guest_phys_addr = seg.start;
        memory_size = memory_size;
        userspace_addr = userspace_addr;
      }
      ∷ rest)

unfoldable pub new_mem : Build → ℕ → ℕ → ℕ → Result (List Slot)
new_mem b userspace_mem mem_size mem_offset = do
  end ← add_word b u64_mod mem_offset mem_size
  slots_from b userspace_mem mem_offset 0 (segments mem_offset end)

-- ===== src/Vm/Load/Examples.antt =====
-- Binaries in a small region (src/vm/builder.rs).
use ferrum_vm.Prelude.{ℕ, ◌≡◌, inl, inr, [], ◌∷◌, arith, ok, panic, debug}
use ferrum_vm.Memory.{load}
use ferrum_vm.Acpi.{Binary, binary}
use ferrum_vm.Config.{MemoryRegionConfig}
use ferrum_vm.Vm.Load.{load_binaries}
use ferrum_vm.Vm.Load.Placed.{with_cells, load_binaries-IsPlaced, load_binaries_overrun}

abbrev mem : MemoryRegionConfig
mem = record { mem_size = 0x1000; mem_offset = 0x8000 }

abbrev stage2 : Binary
stage2 = binary (0xFA ∷ 0xF4 ∷ []) 0x8010

-- It starts below the region.
abbrev elsewhere : Binary
elsewhere = binary (1 ∷ 2 ∷ []) 0x7000

abbrev table : Binary
table = binary (0x52 ∷ []) 0x8012

load_binaries-IsPlaced_example :
    (c' : ℕ → ℕ) × (load_binaries debug mem
        (elsewhere ∷ stage2 ∷ table ∷ [])
        (with_cells mem (λ a. 0) ∷ [])
      ≡ ok (with_cells mem c' ∷ []))
    × (load c' 0x10 2 ≡ 0xFA ∷ 0xF4 ∷ [])
    × (load c' 0x20 4 ≡ load (λ a. 0) 0x20 4)
load_binaries-IsPlaced_example =
    load_binaries-IsPlaced debug mem [] (λ a. 0) (elsewhere ∷ []) stage2 (table ∷ []) (omega arith)
      (omega arith) 0x8020 4
      (
        inl (omega arith),
        (
          inr (inr (omega arith, omega arith, omega arith)),
          (inr (inr (omega arith, omega arith, omega arith)), tt),
        ),
      )
      (inr (omega arith), tt) (omega arith)
      (inl (omega arith), (inl (omega arith), (inl (omega arith), tt)))

-- The last two bytes do not fit.
load_binaries_overrun_example :
    load_binaries debug mem
      (stage2 ∷ binary (1 ∷ 2 ∷ 3 ∷ []) 0x8FFF ∷ [])
      (with_cells mem (λ a. 0) ∷ [])
    ≡ panic
load_binaries_overrun_example =
    load_binaries_overrun debug mem [] (omega arith) (stage2 ∷ []) (binary (1 ∷ 2 ∷ 3 ∷ []) 0x8FFF)
      [] (λ a. 0) (inr (inr (omega arith, omega arith, omega arith)), tt) (omega arith)
      (omega arith)

-- ===== src/Vm/Load.antt =====
-- Guest RAM at start-up: the loop of `VirtualMachine::new` over the memory regions
-- (src/vm/builder.rs). What `mmap` returns is a parameter, none where it fails.
use ferrum_vm.Prelude.{
  ℕ, ◌-◌, Bool, true, false, Option, none, some, List, [], ◌∷◌, ◌++◌, length, leb, ltb, ◌==◌,
  if◌then◌else◌, Result, ok, panic, ◌>>=◌, unwrap, Build, add_word, u64_mod,
}
use ferrum_vm.Memory.{MemoryRegion, GuestMemory, write}
use ferrum_vm.Acpi.{Binary}
use ferrum_vm.Config.{MemoryRegionConfig}
use ferrum_vm.Vm.Memory.{Slot, new_mem}
pub mod Placed
mod Examples

-- A mapping of the host: its address and its bytes.
pub record Mapping : Type 0 where
  pub address : ℕ
  pub cells : ℕ → ℕ

-- The regions, and the slots that KVM was given, oldest first.
pub record Ram : Type 0 where
  pub memory_regions : GuestMemory
  pub slots : List Slot

unfoldable pub new_region : Mapping → MemoryRegionConfig → MemoryRegion
new_region m mem = record {
  ptr_is_null = m.address == 0;
  cells = m.cells;
  mem_size = mem.mem_size;
  mem_offset = mem.mem_offset;
}

-- `this.new_mem(mem.mem_size, mem.mem_offset)`, for the mapping that it gets.
unfoldable pub map_region : Build → Option Mapping → MemoryRegionConfig → Ram → Result Ram
unfolding new_region
map_region b mapping mem ram = do
  m ← unwrap mapping
  slots ← new_mem b m.address mem.mem_size mem.mem_offset
  ok (record {
    memory_regions = ram.memory_regions ++ (new_region m mem ∷ []);
    slots = ram.slots ++ slots;
  })

-- `memory_regions.last().unwrap().write(data, code_offset)`.
unfoldable pub write_last : GuestMemory → List ℕ → ℕ → Result GuestMemory
write_last [] bytes at = panic
write_last (r ∷ []) bytes at = ok (write r bytes at ∷ [])
write_last (r ∷ s ∷ rs) bytes at = do rs' ← write_last (s ∷ rs) bytes at; ok (r ∷ rs')

-- The body of the loop over the binaries once one starts in the region: it has to end there too.
unfoldable pub place_binary : MemoryRegionConfig → Binary → GuestMemory → Result GuestMemory
unfolding write_last
place_binary mem binary regions =
    let code_offset = binary.offset - mem.mem_offset in
    if leb code_offset mem.mem_size
    then if leb (length binary.bytes) (mem.mem_size - code_offset)
      then write_last regions binary.bytes code_offset
      else panic
    else panic

unfoldable pub load_binary : Build → MemoryRegionConfig → Binary → GuestMemory → Result GuestMemory
unfolding place_binary
load_binary b mem binary regions =
    if leb mem.mem_offset binary.offset
    then (do
      end ← add_word b u64_mod mem.mem_offset mem.mem_size
      if ltb binary.offset end then place_binary mem binary regions else ok regions)
    else ok regions

unfoldable pub load_binaries :
    Build → MemoryRegionConfig → List Binary → GuestMemory → Result GuestMemory
load_binaries b mem [] regions = ok regions
load_binaries b mem (binary ∷ binaries) regions =
    load_binary b mem binary regions >>= load_binaries b mem binaries

-- The loop over the regions; `mmap` is asked for each with the size and the regions before it.
unfoldable pub load_regions :
    Build
    → (GuestMemory → ℕ → Option Mapping)
    → List Binary
    → List MemoryRegionConfig
    → Ram
    → Result Ram
unfolding map_region load_binaries
load_regions b mmap binaries [] ram = ok ram
load_regions b mmap binaries (mem ∷ mems) ram = do
  mapped ← map_region b (mmap ram.memory_regions mem.mem_size) mem ram
  loaded ← load_binaries b mem binaries mapped.memory_regions
  load_regions b mmap binaries mems (record mapped { memory_regions = loaded })

-- ===== src/Vm.antt =====
-- The virtual machine: src/vm/builder.rs, src/vm/run.rs and src/vm/tick.rs.
pub mod Cpu
pub mod Load
pub mod Memory
pub mod Run
pub mod Setup
pub mod Sample
mod Examples

-- ===== src/Lib.antt =====
-- FerrumVM, a virtual machine monitor on KVM.
--
-- A vCPU thread runs the guest (src/vm/run.rs) and hands each port or memory-mapped access that it
-- exits with to the device maps (src/device_maps), which pass it to a device at its offset in the
-- device's range. A tick thread (src/vm/tick.rs) lets every device work and then hands the interrupt
-- requests that the devices queued (src/irq/handler.rs) to KVM. The virtio devices stand behind a
-- memory-mapped transport (src/devices/virtio/transports/mmio.rs) and share queues with the guest in
-- its RAM (src/devices/virtio/virtio.rs).
--
-- The files, by the code they model:
-- Memory: the regions of guest RAM and the memory handle, src/machine_config/memory_region.rs and
--   VirtioGuestMemoryHandle of src/devices/virtio/virtio.rs. A region's bytes are a function of the
--   offset.
-- Irq: src/irq/handler.rs and src/irq/map.rs.
-- Virtqueue: the split virtqueue of src/devices/virtio/virtio.rs, with Virtqueue/Loop the
--   `while let Some(head) = queue.pop_avail(..)` that the devices share.
-- Virtio: the trait VirtioDevice as a record of operations, and the devices counter, rng, console,
--   blk and net of src/devices/virtio/devices, with src/platform/networking/tap.rs.
-- Virtio/Gpu: src/devices/virtio/devices/gpu.rs, with the packed structures in Gpu/Wire, the gathering
--   of a request in Gpu/Gather, GpuResource in Gpu/Resource, one function for each command in
--   Gpu/Command and the two queues in Gpu/Device. A resource table is a list without repeated keys.
-- Virtio/Fs: src/devices/virtio/devices/fs.rs, in front of SharedFolder.
-- SharedFolder: src/platform/shared_folder, a FUSE server. A handler is a function of the server's state
--   that may panic and that leaves the state changed when it fails too; the handlers are chained by the
--   bind of SharedFolder/Handlers. SharedFolder/Host is the host's file system. Node has those of
--   node.rs, File those of file.rs, dir.rs and init.rs.
-- Transport: src/devices/virtio/transports/mmio.rs, for any device of that record.
-- DeviceMap: src/device_maps/io.rs and src/device_maps/mmio.rs, for any devices.
-- Serial: src/devices/serial.rs, with the keyboard thread in Serial/Keyboard.
-- Cmos: src/devices/cmos.rs. Pit: src/devices/timer.rs.
-- Acpi: src/machine_config/acpi and src/machine_config/binary.rs.
-- Config: src/machine_config/mem_map.rs and inject_memmap of src/machine_config/machine_config.rs;
--   Config/Tables its inject_acpi_tables, with src/machine_config/acpi/dsdt.rs.
-- Vm: Vm/Memory (new_mem), Vm/Load (the regions and binaries) and Vm/Setup (VirtualMachine::new) have
--   src/vm/builder.rs and src/vm/vm.rs, Vm/Cpu has src/vcpu.rs and new_vcpu, and Vm/Run has
--   src/vm/run.rs and src/vm/tick.rs.
-- Display: src/platform/sdl/context.rs.
-- Networking: the firewall rules and the creation of the network interface, firewall.rs and
--   TAPDevice::new of tap.rs in src/platform/networking.
-- Main: the configuration and the start of the machine in src/main.rs.
-- Prelude: lists and tests over the native numbers, little-endian words, bit operations, and Result,
--   the outcome of Rust code that may panic.
--
-- A machine word is a natural number with its wrap-around written out. Arithmetic that overflows
-- panics or wraps by the build profile, which is the argument `b : Build`. State that Rust shares
-- by a lock is passed in and out: guest RAM and the interrupt queue with the device or transport
-- that uses them; one lock is held through each operation, so that interleavings are sequences of
-- operations (Transport/Line/Reach and Serial/Reach). The loop over an available ring takes fuel,
-- and so do the walks of the file system device over a chain; more fuel than a chain that
-- ends has readable descriptors (Virtio/Fs/Chain) is enough for a walk of it, and more fuel than there are pending entries for
-- a loop whose body leaves the available ring as it is (Virtqueue/Loop/Order), as that of the network
-- device does where the rings are apart (Virtio/Net/Transmit). No bound is given for a body that writes
-- over the available ring. Every other loop is bounded by its data or by the source's own counter.
--
-- Parameters: the random source, the disk image, the network interface, SDL, the host's file system,
-- the log file of the serial port, the host's clock, the terminal's events, the files that are read at
-- the start, what mmap returns, KVM's answers to the set-up of a vCPU, and what a run of a vCPU
-- returns. The calls that set a vCPU up are recorded in their order, and so are those that register
-- memory slots, of which KVM is taken to keep the last one for each number.
--
-- Not modelled: the threads themselves, the raw mode of the terminal, what the kernel does
-- with the firewall rules, the PCI bus, which nothing reads, the build script, and the guest's firmware.
-- Flushing the standard output is taken to succeed.
pub mod Prelude
pub mod Main
pub mod Display
pub mod Networking
pub mod Memory
pub mod Irq
pub mod Virtqueue
pub mod Virtio
pub mod Transport
pub mod DeviceMap
pub mod Serial
pub mod Cmos
pub mod Acpi
pub mod Config
pub mod Vm
pub mod SharedFolder
pub mod Pit

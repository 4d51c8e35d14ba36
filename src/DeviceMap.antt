-- ===== src/DeviceMap.antt =====
-- Port and MMIO address spaces: src/device_maps/io.rs and src/device_maps/mmio.rs.
-- A device is a value of a type `D` (in the program, a trait object), and what devices share (the
-- interrupt handler, guest RAM, the host) is a value of a type `W`, passed in and out of every call.
pub mod Io
pub mod Mmio
pub mod Routing
mod Examples

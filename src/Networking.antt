-- ===== src/Networking.antt =====
-- The host's network as the program sets it up: src/platform/networking.
pub mod Firewall
pub mod Interface
mod Outcome

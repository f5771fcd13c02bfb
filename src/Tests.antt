-- ===== src/Tests.antt =====
-- Tests of the definitions, and the theorems at concrete inputs.
mod Simulated
mod Buffers
mod Desktop
mod Interface
mod Ports
mod Phone
mod Moves
mod Devices
mod Programs
mod Purging
mod Controllers
mod Handles

-- ===== src/Machine.antt =====
-- What the C code takes from the machine: bit operations, byte memory, and devices.
pub mod Bits
pub mod Memory
pub mod Io
pub mod Quiet

-- ===== src/Core.antt =====
-- The processor: libz80e/src/core and libz80e/include/z80e/core.
pub mod Flags
pub mod Registers
pub mod Cpu
pub mod Code
mod Tests

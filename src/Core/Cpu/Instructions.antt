-- ===== src/Core/Cpu/Instructions.antt =====
-- The instruction groups of `cpu_execute` in libz80e/src/core/cpu.c, by prefix and by the field
-- `x` of the opcode.
pub mod Cb
pub mod Ed
pub mod X0
pub mod X3

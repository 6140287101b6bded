-- ===== src/Core/Cpu/Named.antt =====
-- libz80e/src/core/cpu.c: the accesses to the registers by name, which the debugger uses. The hooks
-- on the registers are the tables of the module Hooks.
pub mod Laws
use z80e.Common.{ℕ, ◌+◌, ◌%◌, ◌^◌, List, u8, u16}
use z80e.Core.Registers.{Registers, af, bc, de, hl, set_af, set_bc, set_de, set_hl}
use z80e.Hooks.{RegisterHook, hook_on_register}

-- `registers`.
pub data Register : Type 0 where
  reg_a : Register
  reg_f : Register
  reg_af : Register
  reg_af' : Register
  reg_b : Register
  reg_c : Register
  reg_bc : Register
  reg_bc' : Register
  reg_d : Register
  reg_e : Register
  reg_de : Register
  reg_de' : Register
  reg_h : Register
  reg_l : Register
  reg_hl : Register
  reg_hl' : Register
  reg_pc : Register
  reg_sp : Register
  reg_i : Register
  reg_r : Register
  reg_ixh : Register
  reg_ixl : Register
  reg_ix : Register
  reg_iyh : Register
  reg_iyl : Register
  reg_iy : Register

-- The mask of a register.
unfoldable pub register_mask : Register → ℕ
register_mask reg_a = 2 ^ 0
register_mask reg_f = 2 ^ 1
register_mask reg_af = 2 ^ 2
register_mask reg_af' = 2 ^ 3
register_mask reg_b = 2 ^ 4
register_mask reg_c = 2 ^ 5
register_mask reg_bc = 2 ^ 6
register_mask reg_bc' = 2 ^ 7
register_mask reg_d = 2 ^ 8
register_mask reg_e = 2 ^ 9
register_mask reg_de = 2 ^ 10
register_mask reg_de' = 2 ^ 11
register_mask reg_h = 2 ^ 12
register_mask reg_l = 2 ^ 13
register_mask reg_hl = 2 ^ 14
register_mask reg_hl' = 2 ^ 15
register_mask reg_pc = 2 ^ 16
register_mask reg_sp = 2 ^ 17
register_mask reg_i = 2 ^ 18
register_mask reg_r = 2 ^ 19
register_mask reg_ixh = 2 ^ 20
register_mask reg_ixl = 2 ^ 21
register_mask reg_ix = 2 ^ 22
register_mask reg_iyh = 2 ^ 23
register_mask reg_iyl = 2 ^ 24
register_mask reg_iy = 2 ^ 25

-- The `switch` of `cpu_read_register_word`: -1 when the register is no pair that it knows.
unfoldable pub word_at : Register → Registers → ℕ
word_at reg_af reg = af reg
word_at reg_af' reg = reg.af'
word_at reg_bc reg = bc reg
word_at reg_bc' reg = reg.bc'
word_at reg_de reg = de reg
word_at reg_de' reg = reg.de'
word_at reg_hl reg = hl reg
word_at reg_hl' reg = reg.hl'
word_at _ reg = 0xffff

unfoldable pub with_word : Register → ℕ → Registers → Registers
with_word reg_af v reg = set_af v reg
with_word reg_af' v reg = record reg { af' = v }
with_word reg_bc v reg = set_bc v reg
with_word reg_bc' v reg = record reg { bc' = v }
with_word reg_de v reg = set_de v reg
with_word reg_de' v reg = record reg { de' = v }
with_word reg_hl v reg = set_hl v reg
with_word reg_hl' v reg = record reg { hl' = v }
with_word _ v reg = reg

-- The `switch` of `cpu_read_register_byte`.
unfoldable pub byte_at : Register → Registers → ℕ
byte_at reg_a reg = reg.a
byte_at reg_f reg = reg.f
byte_at reg_b reg = reg.b
byte_at reg_c reg = reg.c
byte_at reg_d reg = reg.d
byte_at reg_e reg = reg.e
byte_at reg_h reg = reg.h
byte_at reg_l reg = reg.l
byte_at reg_i reg = reg.i
byte_at reg_r reg = reg.r
byte_at reg_ixh reg = reg.ixh
byte_at reg_ixl reg = reg.ixl
byte_at reg_iyh reg = reg.iyh
byte_at reg_iyl reg = reg.iyl
byte_at _ reg = 0xff

unfoldable pub with_byte : Register → ℕ → Registers → Registers
with_byte reg_a v reg = record reg { a = v }
with_byte reg_f v reg = record reg { f = v }
with_byte reg_b v reg = record reg { b = v }
with_byte reg_c v reg = record reg { c = v }
with_byte reg_d v reg = record reg { d = v }
with_byte reg_e v reg = record reg { e = v }
with_byte reg_h v reg = record reg { h = v }
with_byte reg_l v reg = record reg { l = v }
with_byte reg_i v reg = record reg { i = v }
with_byte reg_r v reg = record reg { r = v }
with_byte reg_ixh v reg = record reg { ixh = v }
with_byte reg_ixl v reg = record reg { ixl = v }
with_byte reg_iyh v reg = record reg { iyh = v }
with_byte reg_iyl v reg = record reg { iyl = v }
with_byte _ v reg = reg

module _ {W : Type 0} where
  unfoldable pub cpu_read_register_word : List (RegisterHook W) → W → Registers → Register → ℕ × W
  cpu_read_register_word on_read w reg reg_to_read =
      hook_on_register on_read w (register_mask reg_to_read) (word_at reg_to_read reg)

  unfoldable pub cpu_read_register_byte : List (RegisterHook W) → W → Registers → Register → ℕ × W
  cpu_read_register_byte on_read w reg reg_to_read =
      let read = hook_on_register on_read w (register_mask reg_to_read) (byte_at reg_to_read reg) in
      (u8 read.0, read.1)

  -- The result is the value stored, the registers and the state of the hooks.
  unfoldable pub cpu_write_register_word :
      List (RegisterHook W) → W → Registers → Register → ℕ → ℕ × Registers × W
  cpu_write_register_word on_write w reg reg_to_read value =
      let written = hook_on_register on_write w (register_mask reg_to_read) value in
      (written.0, with_word reg_to_read written.0 reg, written.1)

  unfoldable pub cpu_write_register_byte :
      List (RegisterHook W) → W → Registers → Register → ℕ → ℕ × Registers × W
  cpu_write_register_byte on_write w reg reg_to_read value =
      let written = hook_on_register on_write w (register_mask reg_to_read) value in
      (u8 written.0, with_byte reg_to_read (u8 written.0) reg, written.1)

-- ===== src/Core/Cpu/Block.antt =====
-- `execute_bli` of libz80e/src/core/cpu.c: the block transfers, searches, inputs and outputs.
-- The four rows of the source (`I`, `D`, `IR`, `DR`) differ in the direction of the pointers and
-- in whether the instruction repeats, by moving the program counter back onto itself.
use z80e.Common.{
  ℕ, ◌+◌, Bool, true, false, not, ◌&&◌, ◌||◌, [], ◌∷◌, bit_and, ◌|||◌, ltb, ◌==◌, if◌then◌else◌,
  switch, to_ℕ, to_bool, u8, u16, int_sub,
}
use z80e.Core.Flags.{
  mask_s, mask_z, mask_c, flag_h, flag_pv, flag_c, flag_subtract, flag_zero, flag_sign_8,
  flag_undef_8_block, flag_halfcarry_8_sub,
}
use z80e.Core.Registers.{
  Registers, bc, de, hl, set_bc, set_de, set_hl, flags_c, flags_z, set_flags_z, set_flags_n,
}
use z80e.Core.Cpu.{
  Board, Exec, pure, ◌>>=◌, ◌>>◌, get_registers, modify_registers, add_cycles, cpu_read_byte,
  cpu_write_byte, cpu_port_in, cpu_port_out,
}

-- `p++` on a pointer register, or `p--`.
unfoldable pub advance : Bool → ℕ → ℕ
advance up p = if up then u16 (p + 1) else u16 (int_sub p 1)

-- `--r->BC`, then the flags of a transfer of the byte `old`.
unfoldable pub load_flags : ℕ → Registers → Registers
load_flags old r =
    let r' = set_bc (int_sub (bc r) 1) r in
    let new = u8 (r.a + old) in
    record r' {
      f =
          bit_and r.f (mask_s ||| mask_z ||| mask_c)
          ||| flag_pv (to_bool (bc r'))
          ||| flag_subtract false
          ||| flag_undef_8_block new;
    }

-- `--r->BC`, then the flags of a comparison of `A` with the byte `old`.
unfoldable pub compare_flags : ℕ → Registers → Registers
compare_flags old r =
    let r' = set_bc (int_sub (bc r) 1) r in
    let new = u8 (int_sub r.a old) in
    let hc = ltb 0 (flag_halfcarry_8_sub r.a old 0) in
    record r' {
      f =
          flag_sign_8 new
          ||| flag_zero (to_bool new)
          ||| flag_h hc
          ||| flag_pv (to_bool (bc r'))
          ||| flag_subtract true
          ||| flag_c (flags_c r)
          ||| flag_undef_8_block (int_sub new (to_ℕ hc));
    }

-- The pointer `HL` moves on; then `flags.Z = !--B; flags.N = 1`.
unfoldable pub io_flags : Bool → Registers → Registers
io_flags up r =
    let r' = set_hl (advance up (hl r)) r in
    let count = u8 (int_sub r'.b 1) in
    set_flags_n true (set_flags_z (not (to_bool count)) (record r' { b = count }))

module _ {M : Type 0} (board : Board M) where
  -- `if (again) { cycles += 5; PC -= 2; }`.
  unfoldable pub repeat : Bool → Exec M (Unit {0})
  repeat again =
      if again
      then (do add_cycles 5; modify_registers (λ reg. record reg { pc = u16 (int_sub reg.pc 2) }))
      else pure tt

  -- LDI, LDD.
  unfoldable pub block_load : Bool → Exec M (Unit {0})
  block_load up = do
    add_cycles 12
    r ← get_registers
    modify_registers (set_hl (advance up (hl r)))
    old ← cpu_read_byte board (hl r)
    modify_registers (set_de (advance up (de r)))
    cpu_write_byte board (de r) old
    modify_registers (load_flags old)

  -- CPI, CPD.
  unfoldable pub block_compare : Bool → Exec M (Unit {0})
  block_compare up = do
    add_cycles 12
    r ← get_registers
    modify_registers (set_hl (advance up (hl r)))
    old ← cpu_read_byte board (hl r)
    modify_registers (compare_flags old)

  -- INI, IND.
  unfoldable pub block_in : Bool → Exec M (Unit {0})
  block_in up = do
    add_cycles 12
    r ← get_registers
    v ← cpu_port_in board r.c
    cpu_write_byte board (hl r) v
    modify_registers (io_flags up)

  -- OUTI, OUTD.
  unfoldable pub block_out : Bool → Exec M (Unit {0})
  block_out up = do
    add_cycles 12
    r ← get_registers
    v ← cpu_read_byte board (hl r)
    cpu_port_out board r.c v
    modify_registers (io_flags up)

  -- The conditions under which `LDIR`, `CPIR` and `INIR` run again.
  unfoldable pub repeats : ℕ → Registers → Bool
  repeats z r = switch z false (
      to_bool (bc r) ∷ (to_bool (bc r) && not (flags_z r)) ∷ not (flags_z r) ∷ not (flags_z r) ∷ [])

  unfoldable pub block_once : Bool → ℕ → Exec M (Unit {0})
  block_once up z =
      switch z (pure tt) (block_load up ∷ block_compare up ∷ block_in up ∷ block_out up ∷ [])

  -- Row `y` of 4 to 7, column `z` of 0 to 3.
  unfoldable pub execute_bli : ℕ → ℕ → Exec M (Unit {0})
  execute_bli y z = do
    block_once (y == 4 || y == 6) z
    r ← get_registers
    repeat ((y == 6 || y == 7) && repeats z r)

-- ===== src/Core/Cpu/Instructions/Cb.antt =====
-- The branch `(cpu->prefix & 0xFF) == 0xCB` of `cpu_execute`: rotations and single bits.
use z80e.Common.{
  ℕ, ◌+◌, Bool, true, false, ◌&&◌, [], ◌∷◌, bit_and, ◌|||◌, ◌==◌, if◌then◌else◌, switch, to_bool,
  u16, int_sub, int_not, ◌<<<◌, ◌>>>◌,
}
use z80e.Core.Flags.{
  mask_h, flag_c, flag_zero, flag_sign_8, flag_parity, flag_undef_8, flag_undef_16,
}
use z80e.Core.Registers.{Registers, flags_c}
use z80e.Core.Cpu.{
  Board, Exec, pure, ◌>>=◌, ◌>>◌, modify_registers, get_cpu, add_cycles, get_opcode, set_opcode,
  x_of, y_of, z_of, cpu_read_byte,
}
use z80e.Core.Cpu.Operands.{read_r, write_r}
use z80e.Core.Cpu.Rotate.{execute_rot}

-- The flags of `BIT y` on the byte `old`; bits 5 and 3 come from `WZ` for a byte in memory.
unfoldable pub bit_flags : ℕ → ℕ → ℕ → Registers → Registers
bit_flags y z old r =
    let new = bit_and old (1 <<< y) in
    record r {
      f =
          flag_sign_8 new
          ||| flag_zero (to_bool new)
          ||| (if z == 6 then flag_undef_16 r.wz else flag_undef_8 old)
          ||| flag_parity new
          ||| flag_c (flags_c r)
          ||| mask_h;
    }

module _ {M : Type 0} (board : Board M) where
  unfoldable pub move_pc_back : Exec M (Unit {0})
  move_pc_back = modify_registers (λ reg. record reg { pc = u16 (int_sub reg.pc 1) })

  unfoldable pub move_pc_on : Exec M (Unit {0})
  move_pc_on = modify_registers (λ reg. record reg { pc = u16 (reg.pc + 1) })

  -- RES and SET store the new byte where the old one was read.
  unfoldable pub change_bit : (ℕ → ℕ) → ℕ → Bool → Exec M (Unit {0})
  change_bit change z switch_opcode_data = do
    old ← read_r board z
    (if z == 6 && switch_opcode_data then move_pc_back else pure tt)
    write_r board z (change old)
    pure tt

  unfoldable pub execute_cb_opcode : ℕ → Bool → Exec M (Unit {0})
  execute_cb_opcode opcode switch_opcode_data =
      let y = y_of opcode in
      let z = z_of opcode in
      add_cycles 4
      >> switch (x_of opcode) (pure tt) (
          execute_rot board y z switch_opcode_data
          ∷ (do old ← read_r board z; modify_registers (bit_flags y z old))
          ∷ change_bit (λ old. bit_and old (int_not (1 <<< y))) z switch_opcode_data
          ∷ change_bit (λ old. old ||| 1 <<< y) z switch_opcode_data
          ∷ [])

  -- Behind `DD CB` or `FD CB` the displacement comes before the opcode.
  unfoldable pub execute_cb : Exec M (Unit {0})
  execute_cb = do
    cpu ← get_cpu
    (if to_bool (cpu.prefix >>> 8)
        then (do
          move_pc_back
          opcode ← cpu_read_byte board cpu.registers.pc
          set_opcode opcode
          execute_cb_opcode opcode true
          move_pc_on)
        else (do opcode ← get_opcode; execute_cb_opcode opcode false))

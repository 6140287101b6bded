-- ===== src/Core/Cpu/Invariant/Groups.antt =====
-- The instructions behind 0xCB keep the register file within its widths.
use z80e.Common.{ℕ, Bool}
use z80e.Core.Cpu.{Board}
use z80e.Core.Cpu.Instructions.Cb.{
  change_bit, execute_cb, execute_cb_opcode, move_pc_back, move_pc_on,
}
use z80e.Core.Cpu.Invariant.{IsKept, Keeps, Keeps-cpu_read_byte, steps}
use z80e.Core.Cpu.Invariant.Blocks.{Keeps-execute_rot}
use z80e.Core.Cpu.Invariant.Effects.{Fitting-bit_flags}
use z80e.Core.Cpu.Invariant.Operands.{Keeps-read_r, Keeps-write_r}

module _ {M : Type 0} {Q : M → Type 0} (board : Board M) (safe : IsKept Q board) where
  pub Keeps-move_pc_back : Keeps Q (move_pc_back board)
  unfolding move_pc_back
  Keeps-move_pc_back = search steps depth 14

  pub Keeps-move_pc_on : Keeps Q (move_pc_on board)
  unfolding move_pc_on
  Keeps-move_pc_on = search steps depth 14

  pub Keeps-change_bit :
      (change : ℕ → ℕ) (z : ℕ) (switch_opcode_data : Bool)
      → Keeps Q (change_bit board change z switch_opcode_data)
  unfolding change_bit
  Keeps-change_bit change z switch_opcode_data =
      search (steps, Keeps-read_r, Keeps-write_r, Keeps-move_pc_back) depth 14

  pub Keeps-execute_cb_opcode :
      (opcode : ℕ) (switch_opcode_data : Bool)
      → Keeps Q (execute_cb_opcode board opcode switch_opcode_data)
  unfolding execute_cb_opcode
  Keeps-execute_cb_opcode opcode switch_opcode_data =
      search (steps, Keeps-read_r, Keeps-execute_rot, Keeps-change_bit, Fitting-bit_flags) depth 14

  pub Keeps-execute_cb : Keeps Q (execute_cb board)
  unfolding execute_cb
  Keeps-execute_cb =
      search
        (steps, Keeps-cpu_read_byte, Keeps-move_pc_back, Keeps-move_pc_on, Keeps-execute_cb_opcode)
        depth 14

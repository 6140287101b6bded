-- ===== src/Core/Cpu/Invariant/X0.antt =====
-- The instructions with `x == 0` keep the register file within its widths.
use z80e.Common.{ℕ, Bool}
use z80e.Core.Cpu.{Board}
use z80e.Core.Cpu.Instructions.X0.{
  djnz, execute_x0, execute_x0_z0, execute_x0_z1, jr_cc, jump_relative, load_a, load_immediate,
  load_indirect, read_nn_to_wz, step_r, step_rp, store_indirect,
}
use z80e.Core.Cpu.Invariant.{
  IsKept, Keeps, Keeps-cpu_read_byte, Keeps-cpu_read_word, Keeps-cpu_write_byte,
  Keeps-cpu_write_word, Keeps-read_d, Keeps-read_n, Keeps-read_nn, steps,
}
use z80e.Core.Cpu.Invariant.Effects.{
  Fitting-accumulator_op, Fitting-add_hl_flags, Fitting-dec_flags, Fitting-ex_af_af,
  Fitting-inc_flags,
}
use z80e.Core.Cpu.Invariant.Groups.{Keeps-move_pc_back, Keeps-move_pc_on}
use z80e.Core.Cpu.Invariant.Operands.{
  Keeps-hl_or_i_r, Keeps-hl_or_i_w, Keeps-read_r, Keeps-read_rp, Keeps-write_r, Keeps-write_rp,
}

module _ {M : Type 0} {Q : M → Type 0} (board : Board M) (safe : IsKept Q board) where
  pub Keeps-jump_relative : (d : ℕ) → Keeps Q (jump_relative board d)
  unfolding jump_relative
  Keeps-jump_relative d = search steps depth 14

  pub Keeps-djnz : Keeps Q (djnz board)
  unfolding djnz
  Keeps-djnz = search (steps, Keeps-read_d, Keeps-jump_relative) depth 14

  pub Keeps-jr_cc : (cc : ℕ) → Keeps Q (jr_cc board cc)
  unfolding jr_cc
  Keeps-jr_cc cc = search (steps, Keeps-read_d, Keeps-jump_relative) depth 14

  pub Keeps-execute_x0_z0 : (y : ℕ) → Keeps Q (execute_x0_z0 board y)
  unfolding execute_x0_z0
  Keeps-execute_x0_z0 y =
      search (steps, Keeps-read_d, Keeps-jump_relative, Keeps-djnz, Keeps-jr_cc, Fitting-ex_af_af)
        depth 14

  pub Keeps-execute_x0_z1 : (q : ℕ) (p : ℕ) → Keeps Q (execute_x0_z1 board q p)
  unfolding execute_x0_z1
  Keeps-execute_x0_z1 q p =
      search
        (
          steps, Keeps-read_nn, Keeps-hl_or_i_r, Keeps-hl_or_i_w, Keeps-read_rp, Keeps-write_rp,
          Fitting-add_hl_flags,
        )
        depth 14

  pub Keeps-read_nn_to_wz : Keeps Q (read_nn_to_wz board)
  unfolding read_nn_to_wz
  Keeps-read_nn_to_wz = search (steps, Keeps-read_nn) depth 14

  pub Keeps-store_indirect : (p : ℕ) → Keeps Q (store_indirect board p)
  unfolding store_indirect
  Keeps-store_indirect p =
      search
        (steps, Keeps-cpu_write_byte, Keeps-cpu_write_word, Keeps-hl_or_i_r, Keeps-read_nn_to_wz)
        depth 14

  pub Keeps-load_a : (address : ℕ) → Keeps Q (load_a board address)
  unfolding load_a
  Keeps-load_a address = search (steps, Keeps-cpu_read_byte) depth 14

  pub Keeps-load_indirect : (p : ℕ) → Keeps Q (load_indirect board p)
  unfolding load_indirect
  Keeps-load_indirect p =
      search (steps, Keeps-cpu_read_word, Keeps-hl_or_i_w, Keeps-read_nn_to_wz, Keeps-load_a) depth
        14

  pub Keeps-step_rp : (q : ℕ) (p : ℕ) → Keeps Q (step_rp board q p)
  unfolding step_rp
  Keeps-step_rp q p = search (steps, Keeps-read_rp, Keeps-write_rp) depth 14

  pub Keeps-step_r : (up : Bool) (y : ℕ) → Keeps Q (step_r board up y)
  unfolding step_r
  Keeps-step_r up y =
      search
        (
          steps, Keeps-read_r, Keeps-write_r, Keeps-move_pc_back, Fitting-inc_flags,
          Fitting-dec_flags,
        )
        depth 14

  pub Keeps-load_immediate : (y : ℕ) → Keeps Q (load_immediate board y)
  unfolding load_immediate
  Keeps-load_immediate y = search (steps, Keeps-read_n, Keeps-write_r, Keeps-move_pc_on) depth 14

  pub Keeps-execute_x0 : (opcode : ℕ) → Keeps Q (execute_x0 board opcode)
  unfolding execute_x0
  Keeps-execute_x0 opcode =
      search
        (
          steps, Keeps-execute_x0_z0, Keeps-execute_x0_z1, Keeps-store_indirect,
          Keeps-load_indirect, Keeps-step_rp, Keeps-step_r, Keeps-load_immediate,
          Fitting-accumulator_op,
        )
        depth 14

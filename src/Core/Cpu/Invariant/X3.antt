-- ===== src/Core/Cpu/Invariant/X3.antt =====
-- The instructions with `x` from 1 to 3 keep the register file within its widths.
use z80e.Common.{ℕ, refl}
use z80e.Core.Cpu.{Board}
use z80e.Core.Cpu.Instructions.X3.{
  call, call_cc, enable_interrupts, ex_sp_hl, execute_x1, execute_x2, execute_x3, execute_x3_z1,
  execute_x3_z3, execute_x3_z5, in_a_n, jp_cc, jump, out_n_a, ret_cc, set_cb_prefix,
  set_high_prefix,
}
use z80e.Core.Cpu.Invariant.{
  IsKept, Keeps, Keeps-cpu_port_in, Keeps-cpu_port_out, Keeps-cpu_read_word, Keeps-cpu_write_word,
  Keeps-modify_cpu, Keeps-pop, Keeps-push, Keeps-read_n, Keeps-read_nn, steps,
}
use z80e.Core.Cpu.Invariant.Blocks.{Keeps-disable_interrupts, Keeps-execute_alu}
use z80e.Core.Cpu.Invariant.Effects.{Fitting-ex_de_hl, Fitting-exx}
use z80e.Core.Cpu.Invariant.Operands.{
  Keeps-hl_or_i_r, Keeps-hl_or_i_w, Keeps-read_r, Keeps-read_rp2, Keeps-read_write_r,
  Keeps-write_rp2,
}

module _ {M : Type 0} {Q : M → Type 0} (board : Board M) (safe : IsKept Q board) where
  pub Keeps-jump : (address : ℕ) → Keeps Q (jump board address)
  unfolding jump
  Keeps-jump address = search steps depth 14

  pub Keeps-call : (address : ℕ) → Keeps Q (call board address)
  unfolding call
  Keeps-call address = search (steps, Keeps-push, Keeps-jump) depth 14

  pub Keeps-ret_cc : (cc : ℕ) → Keeps Q (ret_cc board cc)
  unfolding ret_cc
  Keeps-ret_cc cc = search (steps, Keeps-pop, Keeps-jump) depth 14

  pub Keeps-jp_cc : (cc : ℕ) → Keeps Q (jp_cc board cc)
  unfolding jp_cc
  Keeps-jp_cc cc = search (steps, Keeps-read_nn, Keeps-jump) depth 14

  pub Keeps-call_cc : (cc : ℕ) → Keeps Q (call_cc board cc)
  unfolding call_cc
  Keeps-call_cc cc = search (steps, Keeps-read_nn, Keeps-call) depth 14

  pub Keeps-set_high_prefix : (v : ℕ) → Keeps Q (set_high_prefix board v)
  unfolding set_high_prefix
  Keeps-set_high_prefix v = search steps depth 14

  pub Keeps-set_cb_prefix : Keeps Q (set_cb_prefix board)
  unfolding set_cb_prefix
  Keeps-set_cb_prefix = search steps depth 14

  pub Keeps-ex_sp_hl : Keeps Q (ex_sp_hl board)
  unfolding ex_sp_hl
  Keeps-ex_sp_hl =
      search (steps, Keeps-cpu_read_word, Keeps-cpu_write_word, Keeps-hl_or_i_r, Keeps-hl_or_i_w)
        depth 14

  pub Keeps-enable_interrupts : Keeps Q (enable_interrupts board)
  unfolding enable_interrupts
  Keeps-enable_interrupts = Keeps-modify_cpu _ (λ cpu. refl) (λ cpu. refl)

  pub Keeps-execute_x3_z1 : (q : ℕ) (p : ℕ) → Keeps Q (execute_x3_z1 board q p)
  unfolding execute_x3_z1
  Keeps-execute_x3_z1 q p =
      search (steps, Keeps-pop, Keeps-hl_or_i_r, Keeps-write_rp2, Keeps-jump, Fitting-exx) depth 14

  pub Keeps-out_n_a : Keeps Q (out_n_a board)
  unfolding out_n_a
  Keeps-out_n_a = search (steps, Keeps-cpu_port_out, Keeps-read_n) depth 14

  pub Keeps-in_a_n : Keeps Q (in_a_n board)
  unfolding in_a_n
  Keeps-in_a_n = search (steps, Keeps-cpu_port_in, Keeps-read_n) depth 14

  pub Keeps-execute_x3_z3 : (y : ℕ) → Keeps Q (execute_x3_z3 board y)
  unfolding execute_x3_z3
  Keeps-execute_x3_z3 y =
      search
        (
          steps, Keeps-read_nn, Keeps-disable_interrupts, Keeps-jump, Keeps-set_cb_prefix,
          Keeps-ex_sp_hl, Keeps-enable_interrupts, Keeps-out_n_a, Keeps-in_a_n, Fitting-ex_de_hl,
        )
        depth 14

  pub Keeps-execute_x3_z5 : (q : ℕ) (p : ℕ) → Keeps Q (execute_x3_z5 board q p)
  unfolding execute_x3_z5
  Keeps-execute_x3_z5 q p =
      search (steps, Keeps-push, Keeps-read_nn, Keeps-read_rp2, Keeps-call, Keeps-set_high_prefix)
        depth 14

  pub Keeps-execute_x3 : (opcode : ℕ) → Keeps Q (execute_x3 board opcode)
  unfolding execute_x3
  Keeps-execute_x3 opcode =
      search
        (
          steps, Keeps-read_n, Keeps-execute_alu, Keeps-call, Keeps-ret_cc, Keeps-jp_cc,
          Keeps-call_cc, Keeps-execute_x3_z1, Keeps-execute_x3_z3, Keeps-execute_x3_z5,
        )
        depth 14

  pub Keeps-execute_x1 : (opcode : ℕ) → Keeps Q (execute_x1 board opcode)
  unfolding execute_x1
  Keeps-execute_x1 opcode = search (steps, Keeps-read_write_r) depth 14

  pub Keeps-execute_x2 : (opcode : ℕ) → Keeps Q (execute_x2 board opcode)
  unfolding execute_x2
  Keeps-execute_x2 opcode = search (steps, Keeps-read_r, Keeps-execute_alu) depth 14

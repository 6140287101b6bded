-- ===== src/Core/Cpu/Invariant/Execute.antt =====
-- Every round of `cpu_execute` keeps the register file within its widths.
use z80e.Common.{ℕ, ◌+◌, ◌<◌, arith, u8, bit_or-lt, bit_and-le}
use z80e.Core.Cpu.{Board}
use z80e.Core.Cpu.Execute.{dispatch, execute_opcode, next_r, run_instruction, step_context}
use z80e.Core.Cpu.Invariant.{IsKept, Keeps, Keeps-cpu_read_byte, steps}
use z80e.Core.Cpu.Invariant.Blocks.{Keeps-handle_interrupt}
use z80e.Core.Cpu.Invariant.Ed.{Keeps-execute_ed}
use z80e.Core.Cpu.Invariant.Effects.{Fitting}
use z80e.Core.Cpu.Invariant.Groups.{Keeps-execute_cb}
use z80e.Core.Cpu.Invariant.X0.{Keeps-execute_x0}
use z80e.Core.Cpu.Invariant.X3.{Keeps-execute_x1, Keeps-execute_x2, Keeps-execute_x3}

next_r-lt : (old_r : ℕ) → old_r < 256 → next_r old_r < 256
unfolding next_r
next_r-lt old_r h =
    bit_or-lt 8 _ _ (omega (arith, bit_and-le (u8 (old_r + 1)) 0x7f))
      (omega (arith, bit_and-le old_r 0x80))

Fitting-next_r : Fitting (λ reg. record reg { r = next_r reg.r })
Fitting-next_r = record { fit = λ reg h. let small = next_r-lt reg.r h.r in omega arith }

module _ {M : Type 0} {Q : M → Type 0} (board : Board M) (safe : IsKept Q board) where
  pub Keeps-execute_opcode : (opcode : ℕ) → Keeps Q (execute_opcode board opcode)
  unfolding execute_opcode
  Keeps-execute_opcode opcode =
      search (steps, Keeps-execute_x0, Keeps-execute_x3, Keeps-execute_x1, Keeps-execute_x2) depth
        14

  pub Keeps-dispatch : (prefix : ℕ) (opcode : ℕ) → Keeps Q (dispatch board prefix opcode)
  unfolding dispatch
  Keeps-dispatch prefix opcode =
      search (steps, Keeps-execute_cb, Keeps-execute_ed, Keeps-execute_opcode) depth 14

  pub Keeps-run_instruction : Keeps Q (run_instruction board)
  unfolding run_instruction
  Keeps-run_instruction =
      search (steps, Keeps-cpu_read_byte, Keeps-dispatch, Fitting-next_r) depth 14

  pub Keeps-step_context : Keeps Q (step_context board)
  unfolding step_context
  Keeps-step_context = search (steps, Keeps-handle_interrupt, Keeps-run_instruction) depth 14

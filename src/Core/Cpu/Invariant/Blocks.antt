-- ===== src/Core/Cpu/Invariant/Blocks.antt =====
-- Arithmetic, rotations, block instructions and interrupts keep the register file within its widths.
use z80e.Common.{ℕ, refl, arith, Bool}
use z80e.Core.Cpu.{Board}
use z80e.Core.Cpu.Alu.{execute_alu}
use z80e.Core.Cpu.Block.{
  block_compare, block_in, block_load, block_once, block_out, execute_bli, repeat,
}
use z80e.Core.Cpu.Interrupt.{disable_interrupts, execute_im, handle_interrupt}
use z80e.Core.Cpu.Invariant.{
  IsKept, Keeps, Keeps-cpu_port_in, Keeps-cpu_port_out, Keeps-cpu_read_byte, Keeps-cpu_write_byte,
  Keeps-modify_cpu, Keeps-push, steps,
}
use z80e.Core.Cpu.Invariant.Effects.{
  Fitting, Fitting-alu, Fitting-compare_flags, Fitting-io_flags, Fitting-load_flags, Fitting-set_de,
  Fitting-set_hl, IsByte-rotated_flags, with_f,
}
use z80e.Core.Cpu.Invariant.Operands.{Keeps-read_r, Keeps-write_r}
use z80e.Core.Cpu.Rotate.{execute_rot, rotated_flags}

Fitting-vector : Fitting (λ reg. record reg { pc = 0x38 })
Fitting-vector = record { fit = λ reg h. omega arith }

Fitting-rotated_flags :
    (out : Bool) (v : ℕ) → Fitting (λ reg. record reg { f = rotated_flags out v })
Fitting-rotated_flags out v = record { fit = λ reg h. with_f reg h _ (IsByte-rotated_flags out v) }

module _ {M : Type 0} {Q : M → Type 0} (board : Board M) (safe : IsKept Q board) where
  pub Keeps-execute_alu : (i : ℕ) (v : ℕ) → Keeps Q (execute_alu i v)
  unfolding execute_alu
  Keeps-execute_alu i v = search (steps, Fitting-alu) depth 14

  pub Keeps-execute_rot :
      (y : ℕ) (z : ℕ) (switch_opcode_data : Bool)
      → Keeps Q (execute_rot board y z switch_opcode_data)
  unfolding execute_rot
  Keeps-execute_rot y z switch_opcode_data =
      search (steps, Keeps-read_r, Keeps-write_r, Fitting-rotated_flags) depth 14

  pub Keeps-repeat : (again : Bool) → Keeps Q (repeat board again)
  unfolding repeat
  Keeps-repeat again = search steps depth 14

  pub Keeps-block_load : (up : Bool) → Keeps Q (block_load board up)
  unfolding block_load
  Keeps-block_load up =
      search
        (
          steps, Keeps-cpu_read_byte, Keeps-cpu_write_byte, Fitting-set_de, Fitting-set_hl,
          Fitting-load_flags,
        )
        depth 14

  pub Keeps-block_compare : (up : Bool) → Keeps Q (block_compare board up)
  unfolding block_compare
  Keeps-block_compare up =
      search (steps, Keeps-cpu_read_byte, Fitting-set_hl, Fitting-compare_flags) depth 14

  pub Keeps-block_in : (up : Bool) → Keeps Q (block_in board up)
  unfolding block_in
  Keeps-block_in up =
      search (steps, Keeps-cpu_write_byte, Keeps-cpu_port_in, Fitting-io_flags) depth 14

  pub Keeps-block_out : (up : Bool) → Keeps Q (block_out board up)
  unfolding block_out
  Keeps-block_out up =
      search (steps, Keeps-cpu_read_byte, Keeps-cpu_port_out, Fitting-io_flags) depth 14

  pub Keeps-block_once : (up : Bool) (z : ℕ) → Keeps Q (block_once board up z)
  unfolding block_once
  Keeps-block_once up z =
      search (steps, Keeps-block_load, Keeps-block_compare, Keeps-block_in, Keeps-block_out) depth
        14

  pub Keeps-execute_bli : (y : ℕ) (z : ℕ) → Keeps Q (execute_bli board y z)
  unfolding execute_bli
  Keeps-execute_bli y z = search (steps, Keeps-repeat, Keeps-block_once) depth 14

  pub Keeps-execute_im : (y : ℕ) → Keeps Q (execute_im y)
  unfolding execute_im
  Keeps-execute_im y = Keeps-modify_cpu _ (λ cpu. refl) (λ cpu. refl)

  pub Keeps-disable_interrupts : Keeps Q (disable_interrupts board)
  unfolding disable_interrupts
  Keeps-disable_interrupts = Keeps-modify_cpu _ (λ cpu. refl) (λ cpu. refl)

  pub Keeps-handle_interrupt : Keeps Q (handle_interrupt board)
  unfolding handle_interrupt
  Keeps-handle_interrupt =
      search (steps, Keeps-push, Keeps-disable_interrupts, Fitting-vector) depth 14

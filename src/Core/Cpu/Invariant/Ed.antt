-- ===== src/Core/Cpu/Invariant/Ed.antt =====
-- The instructions behind 0xED keep the register file within its widths.
use z80e.Common.{ℕ, refl, arith, Bool}
use z80e.Core.Cpu.{Board}
use z80e.Core.Cpu.Instructions.Ed.{
  execute_ed, execute_ed_misc, execute_ed_x1, execute_in, execute_out, execute_rld, execute_rrd,
  load_a_flags, load_word_indirect, noni, return_from_interrupt,
}
use z80e.Core.Cpu.Invariant.{
  IsKept, Keeps, Keeps-add_cycles, Keeps-cpu_port_in, Keeps-cpu_port_out, Keeps-cpu_read_byte,
  Keeps-cpu_read_word, Keeps-cpu_write_byte, Keeps-cpu_write_word, Keeps-modify_cpu, Keeps-pop,
  Keeps-read_nn, Keeps-then, steps,
}
use z80e.Core.Cpu.Invariant.Blocks.{Keeps-execute_bli, Keeps-execute_im}
use z80e.Core.Cpu.Invariant.Effects.{
  Fitting, Fitting-adc_hl, Fitting-in_flags, Fitting-load_a_flags, Fitting-neg,
  Fitting-nibble_flags, Fitting-sbc_hl,
}
use z80e.Core.Cpu.Invariant.Operands.{Keeps-read_r, Keeps-read_rp, Keeps-write_r, Keeps-write_rp}

Fitting-i_a : Fitting (λ reg. record reg { i = reg.a })
Fitting-i_a = record { fit = λ reg h. omega arith }

Fitting-r_a : Fitting (λ reg. record reg { r = reg.a })
Fitting-r_a = record { fit = λ reg h. omega arith }

Fitting-load_i : (iff2 : Bool) → Fitting (λ reg. load_a_flags reg.i iff2 reg)
Fitting-load_i iff2 = record { fit = λ reg h. Fitting-load_a_flags reg.i iff2 reg h.i h }

Fitting-load_r : (iff2 : Bool) → Fitting (λ reg. load_a_flags reg.r iff2 reg)
Fitting-load_r iff2 = record { fit = λ reg h. Fitting-load_a_flags reg.r iff2 reg h.r h }

module _ {M : Type 0} {Q : M → Type 0} (board : Board M) (safe : IsKept Q board) where
  pub Keeps-execute_rrd : Keeps Q (execute_rrd board)
  unfolding execute_rrd
  Keeps-execute_rrd =
      search (steps, Keeps-cpu_read_byte, Keeps-cpu_write_byte, Fitting-nibble_flags) depth 14

  pub Keeps-execute_rld : Keeps Q (execute_rld board)
  unfolding execute_rld
  Keeps-execute_rld =
      search (steps, Keeps-cpu_read_byte, Keeps-cpu_write_byte, Fitting-nibble_flags) depth 14

  pub Keeps-execute_in : (y : ℕ) → Keeps Q (execute_in board y)
  unfolding execute_in
  Keeps-execute_in y =
      search (steps, Keeps-cpu_port_in, Keeps-read_r, Keeps-write_r, Fitting-in_flags) depth 14

  pub Keeps-execute_out : (y : ℕ) → Keeps Q (execute_out board y)
  unfolding execute_out
  Keeps-execute_out y = search (steps, Keeps-cpu_port_out, Keeps-read_r) depth 14

  pub Keeps-load_word_indirect : (q : ℕ) (p : ℕ) → Keeps Q (load_word_indirect board q p)
  unfolding load_word_indirect
  Keeps-load_word_indirect q p =
      search
        (
          steps, Keeps-cpu_read_word, Keeps-cpu_write_word, Keeps-read_nn, Keeps-read_rp,
          Keeps-write_rp,
        )
        depth 14

  pub Keeps-return_from_interrupt : Keeps Q (return_from_interrupt board)
  unfolding return_from_interrupt
  Keeps-return_from_interrupt = search (steps, Keeps-pop) depth 14

  pub Keeps-execute_ed_misc : (y : ℕ) → Keeps Q (execute_ed_misc board y)
  unfolding execute_ed_misc
  Keeps-execute_ed_misc y =
      search
        (
          steps, Keeps-execute_rrd, Keeps-execute_rld, Fitting-load_a_flags, Fitting-i_a,
          Fitting-r_a, Fitting-load_i, Fitting-load_r,
        )
        depth 14

  pub Keeps-execute_ed_x1 : (opcode : ℕ) → Keeps Q (execute_ed_x1 board opcode)
  unfolding execute_ed_x1
  Keeps-execute_ed_x1 opcode =
      search
        (
          steps, Keeps-read_rp, Keeps-execute_im, Keeps-execute_in, Keeps-execute_out,
          Keeps-load_word_indirect, Keeps-return_from_interrupt, Keeps-execute_ed_misc, Fitting-neg,
          Fitting-sbc_hl, Fitting-adc_hl,
        )
        depth 14

  pub Keeps-noni : Keeps Q (noni board)
  unfolding noni
  Keeps-noni = Keeps-then _ _ (Keeps-add_cycles 4) (Keeps-modify_cpu _ (λ cpu. refl) (λ cpu. refl))

  pub Keeps-execute_ed : (opcode : ℕ) → Keeps Q (execute_ed board opcode)
  unfolding execute_ed
  Keeps-execute_ed opcode =
      search (steps, Keeps-execute_bli, Keeps-execute_ed_x1, Keeps-noni) depth 14

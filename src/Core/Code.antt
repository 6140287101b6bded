-- ===== src/Core/Code.antt =====
-- All definitions of the processor under one name, for the `unfolding` line of a run.
use z80e.Common.{switch}

unfoldable pub cpu_code : Unit {0}
unfolding switch z80e.Core.Cpu.exec_code z80e.Core.Registers.set_af z80e.Core.Registers.set_bc
    z80e.Core.Registers.set_de z80e.Core.Registers.set_hl z80e.Core.Registers.set_ix
    z80e.Core.Registers.set_iy z80e.Core.Registers.set_flag z80e.Core.Registers.set_flags_c
    z80e.Core.Registers.set_flags_n z80e.Core.Registers.set_flags_3 z80e.Core.Registers.set_flags_h
    z80e.Core.Registers.set_flags_5 z80e.Core.Registers.set_flags_z z80e.Core.Registers.ex_af_af
    z80e.Core.Registers.ex_de_hl z80e.Core.Registers.exx z80e.Core.Cpu.add_cycles
    z80e.Core.Cpu.set_prefix z80e.Core.Cpu.set_opcode z80e.Core.Cpu.cpu_read_byte
    z80e.Core.Cpu.cpu_write_byte z80e.Core.Cpu.cpu_read_word z80e.Core.Cpu.cpu_write_word
    z80e.Core.Cpu.cpu_port_in z80e.Core.Cpu.cpu_port_out z80e.Core.Cpu.push z80e.Core.Cpu.pop
    z80e.Core.Cpu.read_n z80e.Core.Cpu.read_nn z80e.Core.Cpu.read_d z80e.Core.Cpu.Operands.by_prefix
    z80e.Core.Cpu.Operands.h_or_ih_r z80e.Core.Cpu.Operands.h_or_ih_w
    z80e.Core.Cpu.Operands.l_or_il_r z80e.Core.Cpu.Operands.l_or_il_w
    z80e.Core.Cpu.Operands.hl_or_i_r z80e.Core.Cpu.Operands.hl_or_i_w
    z80e.Core.Cpu.Operands.index_address z80e.Core.Cpu.Operands.indexed_read
    z80e.Core.Cpu.Operands.indexed_write z80e.Core.Cpu.Operands.read_r
    z80e.Core.Cpu.Operands.write_r z80e.Core.Cpu.Operands.read_write_r
    z80e.Core.Cpu.Operands.read_rp z80e.Core.Cpu.Operands.write_rp z80e.Core.Cpu.Operands.read_rp2
    z80e.Core.Cpu.Operands.write_rp2 z80e.Core.Cpu.Operands.read_cc z80e.Core.Cpu.Alu.daa_correction
    z80e.Core.Cpu.Alu.daa z80e.Core.Cpu.Alu.alu_add z80e.Core.Cpu.Alu.alu_adc
    z80e.Core.Cpu.Alu.alu_sub z80e.Core.Cpu.Alu.alu_sbc z80e.Core.Cpu.Alu.alu_and
    z80e.Core.Cpu.Alu.alu_xor z80e.Core.Cpu.Alu.alu_or z80e.Core.Cpu.Alu.alu_cp
    z80e.Core.Cpu.Alu.alu z80e.Core.Cpu.Alu.execute_alu z80e.Core.Cpu.Rotate.rotated
    z80e.Core.Cpu.Rotate.rotated_out z80e.Core.Cpu.Rotate.rotated_flags
    z80e.Core.Cpu.Rotate.execute_rot z80e.Core.Cpu.Block.advance z80e.Core.Cpu.Block.load_flags
    z80e.Core.Cpu.Block.compare_flags z80e.Core.Cpu.Block.io_flags z80e.Core.Cpu.Block.repeat
    z80e.Core.Cpu.Block.block_load z80e.Core.Cpu.Block.block_compare z80e.Core.Cpu.Block.block_in
    z80e.Core.Cpu.Block.block_out z80e.Core.Cpu.Block.repeats z80e.Core.Cpu.Block.block_once
    z80e.Core.Cpu.Block.execute_bli z80e.Core.Cpu.Interrupt.execute_im
    z80e.Core.Cpu.Interrupt.disable_interrupts z80e.Core.Cpu.Interrupt.handle_interrupt
    z80e.Core.Cpu.Instructions.Cb.bit_flags z80e.Core.Cpu.Instructions.Cb.move_pc_back
    z80e.Core.Cpu.Instructions.Cb.move_pc_on z80e.Core.Cpu.Instructions.Cb.change_bit
    z80e.Core.Cpu.Instructions.Cb.execute_cb_opcode z80e.Core.Cpu.Instructions.Cb.execute_cb
    z80e.Core.Cpu.Instructions.Ed.in_flags z80e.Core.Cpu.Instructions.Ed.sbc_hl
    z80e.Core.Cpu.Instructions.Ed.adc_hl z80e.Core.Cpu.Instructions.Ed.neg
    z80e.Core.Cpu.Instructions.Ed.load_a_flags z80e.Core.Cpu.Instructions.Ed.nibble_flags
    z80e.Core.Cpu.Instructions.Ed.execute_rrd z80e.Core.Cpu.Instructions.Ed.execute_rld
    z80e.Core.Cpu.Instructions.Ed.execute_in z80e.Core.Cpu.Instructions.Ed.execute_out
    z80e.Core.Cpu.Instructions.Ed.load_word_indirect
    z80e.Core.Cpu.Instructions.Ed.return_from_interrupt
    z80e.Core.Cpu.Instructions.Ed.execute_ed_misc z80e.Core.Cpu.Instructions.Ed.execute_ed_x1
    z80e.Core.Cpu.Instructions.Ed.noni z80e.Core.Cpu.Instructions.Ed.execute_ed
    z80e.Core.Cpu.Instructions.X0.add_hl_flags z80e.Core.Cpu.Instructions.X0.inc_flags
    z80e.Core.Cpu.Instructions.X0.dec_flags z80e.Core.Cpu.Instructions.X0.set_undef
    z80e.Core.Cpu.Instructions.X0.rotate_a z80e.Core.Cpu.Instructions.X0.rlca
    z80e.Core.Cpu.Instructions.X0.rrca z80e.Core.Cpu.Instructions.X0.rla
    z80e.Core.Cpu.Instructions.X0.rra z80e.Core.Cpu.Instructions.X0.cpl
    z80e.Core.Cpu.Instructions.X0.scf z80e.Core.Cpu.Instructions.X0.ccf
    z80e.Core.Cpu.Instructions.X0.accumulator_op z80e.Core.Cpu.Instructions.X0.jump_relative
    z80e.Core.Cpu.Instructions.X0.djnz z80e.Core.Cpu.Instructions.X0.jr_cc
    z80e.Core.Cpu.Instructions.X0.execute_x0_z0 z80e.Core.Cpu.Instructions.X0.execute_x0_z1
    z80e.Core.Cpu.Instructions.X0.read_nn_to_wz z80e.Core.Cpu.Instructions.X0.store_indirect
    z80e.Core.Cpu.Instructions.X0.load_a z80e.Core.Cpu.Instructions.X0.load_indirect
    z80e.Core.Cpu.Instructions.X0.step_rp z80e.Core.Cpu.Instructions.X0.is_indexed
    z80e.Core.Cpu.Instructions.X0.step_r z80e.Core.Cpu.Instructions.X0.load_immediate
    z80e.Core.Cpu.Instructions.X0.execute_x0 z80e.Core.Cpu.Instructions.X3.jump
    z80e.Core.Cpu.Instructions.X3.call z80e.Core.Cpu.Instructions.X3.ret_cc
    z80e.Core.Cpu.Instructions.X3.jp_cc z80e.Core.Cpu.Instructions.X3.call_cc
    z80e.Core.Cpu.Instructions.X3.set_high_prefix z80e.Core.Cpu.Instructions.X3.set_cb_prefix
    z80e.Core.Cpu.Instructions.X3.ex_sp_hl z80e.Core.Cpu.Instructions.X3.enable_interrupts
    z80e.Core.Cpu.Instructions.X3.execute_x3_z1 z80e.Core.Cpu.Instructions.X3.out_n_a
    z80e.Core.Cpu.Instructions.X3.in_a_n z80e.Core.Cpu.Instructions.X3.execute_x3_z3
    z80e.Core.Cpu.Instructions.X3.execute_x3_z5 z80e.Core.Cpu.Instructions.X3.execute_x3
    z80e.Core.Cpu.Instructions.X3.execute_x1 z80e.Core.Cpu.Instructions.X3.execute_x2
    z80e.Core.Cpu.Execute.next_r z80e.Core.Cpu.Execute.takes_interrupt
    z80e.Core.Cpu.Execute.clears_wait z80e.Core.Cpu.Execute.execute_opcode
    z80e.Core.Cpu.Execute.dispatch z80e.Core.Cpu.Execute.run_instruction
    z80e.Core.Cpu.Execute.step_context z80e.Core.Cpu.Execute.step z80e.Core.Cpu.Execute.cpu_execute
    z80e.Core.Flags.flag_s z80e.Core.Flags.flag_5 z80e.Core.Flags.flag_h z80e.Core.Flags.flag_3
    z80e.Core.Flags.flag_pv z80e.Core.Flags.flag_c z80e.Core.Flags.flag_subtract
    z80e.Core.Flags.flag_zero z80e.Core.Flags.parity z80e.Core.Flags.flag_carry_16
    z80e.Core.Flags.flag_carry_8 z80e.Core.Flags.flag_sign_16 z80e.Core.Flags.flag_sign_8
    z80e.Core.Flags.flag_parity z80e.Core.Flags.flag_undef_8 z80e.Core.Flags.flag_undef_8_block
    z80e.Core.Flags.flag_undef_16 z80e.Core.Flags.flag_overflow_8_add
    z80e.Core.Flags.flag_overflow_8_sub z80e.Core.Flags.flag_overflow_16_add
    z80e.Core.Flags.flag_overflow_16_sub z80e.Core.Flags.flag_halfcarry_8_add
    z80e.Core.Flags.flag_halfcarry_8_sub z80e.Core.Flags.flag_halfcarry_16_add
    z80e.Core.Flags.flag_halfcarry_16_sub
cpu_code = tt

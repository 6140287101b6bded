-- ===== src/Disassembler/Code.antt =====
-- All definitions of the disassembler under one name, for the `unfolding` line of a run.
use z80e.Common.{switch}

unfoldable pub print_code : Unit {0}
unfolding switch z80e.Disassembler.pure z80e.Disassembler.write z80e.Disassembler.get_prefix
    z80e.Disassembler.set_prefix z80e.Disassembler.get_current z80e.Disassembler.by_prefix
    z80e.Disassembler.parse_h_or_ih_w z80e.Disassembler.parse_l_or_il_w
    z80e.Disassembler.parse_hl_or_i_r z80e.Disassembler.parse_cc z80e.Disassembler.parse_rp
    z80e.Disassembler.parse_rp2 z80e.Disassembler.parse_rot z80e.Disassembler.parse_im
    z80e.Disassembler.parse_alu z80e.Disassembler.parse_bli z80e.Disassembler.next_byte
    z80e.Disassembler.parse_n z80e.Disassembler.parse_d z80e.Disassembler.parse_d_relative
    z80e.Disassembler.parse_nn z80e.Disassembler.parse_r_6 z80e.Disassembler.parse_r
    z80e.Disassembler.parse_rw_r z80e.Disassembler.SourceMap.skip_spaces
    z80e.Disassembler.SourceMap.first_of z80e.Disassembler.SourceMap.find_offset
    z80e.Disassembler.SourceMap.thread_offset z80e.Disassembler.SourceMap.find_entry
    z80e.Disassembler.SourceMap.try_from_sourcemap z80e.Disassembler.Prefixed.invalid
    z80e.Disassembler.Prefixed.parse_cb z80e.Disassembler.Prefixed.parse_ed_in
    z80e.Disassembler.Prefixed.parse_ed_out z80e.Disassembler.Prefixed.parse_ed_load
    z80e.Disassembler.Prefixed.parse_ed_misc z80e.Disassembler.Prefixed.parse_ed_x1
    z80e.Disassembler.Prefixed.parse_ed z80e.Disassembler.Plain.by_name
    z80e.Disassembler.Plain.parse_x0_z0 z80e.Disassembler.Plain.parse_x0_z1
    z80e.Disassembler.Plain.parse_x0_z2 z80e.Disassembler.Plain.parse_x0
    z80e.Disassembler.Plain.parse_x1 z80e.Disassembler.Plain.parse_x2
    z80e.Disassembler.Plain.parse_x3_z1 z80e.Disassembler.Plain.parse_x3_z3
    z80e.Disassembler.Plain.find_pcall z80e.Disassembler.Plain.pcall_name
    z80e.Disassembler.Plain.optimized_name z80e.Disassembler.Plain.parse_x3_z4
    z80e.Disassembler.Plain.parse_call z80e.Disassembler.Plain.parse_x3_z5
    z80e.Disassembler.Plain.parse_rst z80e.Disassembler.Plain.parse_x3
    z80e.Disassembler.Instruction.index_prefix z80e.Disassembler.Instruction.read_prefix
    z80e.Disassembler.Instruction.read_opcode z80e.Disassembler.Instruction.parse_opcode
    z80e.Disassembler.Instruction.parse_code z80e.Disassembler.Instruction.parse_instruction
    z80e.Disassembler.◌>>=◌ z80e.Disassembler.◌>>◌
print_code = tt

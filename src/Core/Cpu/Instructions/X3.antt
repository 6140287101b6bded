-- ===== src/Core/Cpu/Instructions/X3.antt =====
-- The branches `x == 1` to `x == 3` of `cpu_execute`: loads, arithmetic, jumps, calls, the stack,
-- ports and prefixes. A branch returns whether the prefix is reset after it (`reset_prefix`).
use z80e.Common.{
  ℕ, ◌*◌, Bool, true, false, ◌&&◌, [], ◌∷◌, bit_and, ◌|||◌, ◌==◌, if◌then◌else◌, switch, u8, u16,
}
use z80e.Core.Registers.{exx, ex_de_hl}
use z80e.Core.Cpu.{
  Board, Exec, pure, ◌>>=◌, ◌>>◌, get_registers, modify_registers, get_cpu, modify_cpu, add_cycles,
  set_prefix, y_of, z_of, p_of, q_of, cpu_read_word, cpu_write_word, cpu_port_in, cpu_port_out,
  push, pop, read_n, read_nn,
}
use z80e.Core.Cpu.Operands.{
  read_r, read_write_r, read_rp2, write_rp2, hl_or_i_r, hl_or_i_w, read_cc,
}
use z80e.Core.Cpu.Alu.{execute_alu}
use z80e.Core.Cpu.Interrupt.{disable_interrupts}

module _ {M : Type 0} (board : Board M) where
  unfoldable pub jump : ℕ → Exec M (Unit {0})
  jump address = modify_registers (λ reg. record reg { pc = u16 address })

  unfoldable pub call : ℕ → Exec M (Unit {0})
  call address = do reg ← get_registers; push board reg.pc; jump address

  unfoldable pub ret_cc : ℕ → Exec M (Unit {0})
  ret_cc cc = do
    add_cycles 5
    reg ← get_registers
    (if read_cc cc reg then (do address ← pop board; jump address; add_cycles 6) else pure tt)

  unfoldable pub jp_cc : ℕ → Exec M (Unit {0})
  jp_cc cc = do
    add_cycles 10
    nn ← read_nn board
    reg ← get_registers
    (if read_cc cc reg then jump nn else pure tt)

  unfoldable pub call_cc : ℕ → Exec M (Unit {0})
  call_cc cc = do
    add_cycles 10
    nn ← read_nn board
    reg ← get_registers
    (if read_cc cc reg then (do add_cycles 7; call nn) else pure tt)

  -- A prefix byte: `high` replaces the high byte of the prefix.
  unfoldable pub set_high_prefix : ℕ → Exec M (Unit {0})
  set_high_prefix high = do
    add_cycles 4
    cpu ← get_cpu
    set_prefix (bit_and cpu.prefix 0xff ||| high)

  unfoldable pub set_cb_prefix : Exec M (Unit {0})
  set_cb_prefix = do add_cycles 4; cpu ← get_cpu; set_prefix (bit_and cpu.prefix 0xff00 ||| 0x00cb)

  -- EX (SP), HL.
  unfoldable pub ex_sp_hl : Exec M (Unit {0})
  ex_sp_hl = do
    add_cycles 19
    reg ← get_registers
    w ← cpu_read_word board reg.sp
    modify_registers (λ reg'. record reg' { wz = u16 w })
    v ← hl_or_i_r board
    cpu_write_word board reg.sp v
    hl_or_i_w board (u16 w)
    pure tt

  unfoldable pub enable_interrupts : Exec M (Unit {0})
  enable_interrupts = modify_cpu (λ cpu. record cpu { iff1 = true; iff2 = true; iff_wait = true })

  unfoldable pub execute_x3_z1 : ℕ → ℕ → Exec M (Unit {0})
  execute_x3_z1 q p =
      if q == 0
      then (do add_cycles 10; v ← pop board; write_rp2 board p v; pure tt)
      else switch p (pure tt) (
          (do add_cycles 10; v ← pop board; jump v)
          ∷ (do add_cycles 4; modify_registers exx)
          ∷ (do add_cycles 4; v ← hl_or_i_r board; jump v)
          ∷ (do
            add_cycles 6
            v ← hl_or_i_r board
            modify_registers (λ reg. record reg { sp = u16 v }))
          ∷ [])

  unfoldable pub out_n_a : Exec M (Unit {0})
  out_n_a = do add_cycles 11; n ← read_n board; reg ← get_registers; cpu_port_out board n reg.a

  unfoldable pub in_a_n : Exec M (Unit {0})
  in_a_n = do
    add_cycles 11
    n ← read_n board
    v ← cpu_port_in board n
    modify_registers (λ reg. record reg { a = u8 v })

  unfoldable pub execute_x3_z3 : ℕ → Exec M Bool
  execute_x3_z3 y = switch y (pure true) (
      (do add_cycles 10; nn ← read_nn board; jump nn; pure true)
      ∷ (do set_cb_prefix; pure false)
      ∷ (do out_n_a; pure true)
      ∷ (do in_a_n; pure true)
      ∷ (do ex_sp_hl; pure true)
      ∷ (do add_cycles 4; modify_registers ex_de_hl; pure true)
      ∷ (do add_cycles 4; disable_interrupts board; pure true)
      ∷ (do add_cycles 4; enable_interrupts; pure true)
      ∷ [])

  unfoldable pub execute_x3_z5 : ℕ → ℕ → Exec M Bool
  execute_x3_z5 q p =
      if q == 0
      then (do add_cycles 11; v ← read_rp2 board p; push board v; pure true)
      else switch p (pure true) (
          (do add_cycles 17; nn ← read_nn board; call nn; pure true)
          ∷ (do set_high_prefix 0xdd00; pure false)
          ∷ (do set_high_prefix 0xed00; pure false)
          ∷ (do set_high_prefix 0xfd00; pure false)
          ∷ [])

  unfoldable pub execute_x3 : ℕ → Exec M Bool
  execute_x3 opcode =
      let y = y_of opcode in
      switch (z_of opcode) (pure true) (
        (do ret_cc y; pure true)
        ∷ (do execute_x3_z1 (q_of opcode) (p_of opcode); pure true)
        ∷ (do jp_cc y; pure true)
        ∷ execute_x3_z3 y
        ∷ (do call_cc y; pure true)
        ∷ execute_x3_z5 (q_of opcode) (p_of opcode)
        ∷ (do n ← read_n board; execute_alu y n; pure true)
        ∷ (do add_cycles 11; call (y * 8); pure true)
        ∷ [])

  -- HALT, or LD r[y], r[z].
  unfoldable pub execute_x1 : ℕ → Exec M (Unit {0})
  execute_x1 opcode =
      if z_of opcode == 6 && y_of opcode == 6
      then (do add_cycles 4; modify_cpu (λ cpu. record cpu { halted = true }))
      else (do add_cycles 4; read_write_r board (z_of opcode) (y_of opcode); pure tt)

  unfoldable pub execute_x2 : ℕ → Exec M (Unit {0})
  execute_x2 opcode = do v ← read_r board (z_of opcode); execute_alu (y_of opcode) v

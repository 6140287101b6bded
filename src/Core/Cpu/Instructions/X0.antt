-- ===== src/Core/Cpu/Instructions/X0.antt =====
-- The branch `x == 0` of `cpu_execute`: relative jumps, 16-bit loads and arithmetic, indirect
-- loads, increments, immediate loads, and the operations on the accumulator and the flags.
use z80e.Common.{
  ℕ, ◌+◌, ◌-◌, Bool, true, false, not, ◌&&◌, [], ◌∷◌, bit_and, ◌|||◌, ltb, ◌==◌, ◌!=◌,
  if◌then◌else◌, switch, to_ℕ, to_bool, u8, u16, int_sub, ◌<<<◌, ◌>>>◌,
}
use z80e.Core.Flags.{
  mask_3, mask_5, flag_s, flag_c, flag_pv, flag_subtract, flag_zero, flag_sign_8, flag_undef_8,
  flag_undef_16, flag_carry_16, flag_halfcarry_8_add, flag_halfcarry_8_sub, flag_halfcarry_16_add,
}
use z80e.Core.Registers.{
  Registers, bc, de, flags_c, flags_z, flags_pv, flags_s, ex_af_af, set_flags_c, set_flags_n,
  set_flags_3, set_flags_h, set_flags_5,
}
use z80e.Core.Cpu.{
  Board, Cpu, Exec, pure, ◌>>=◌, ◌>>◌, get_registers, modify_registers, get_cpu, add_cycles, y_of,
  z_of, p_of, q_of, cpu_read_byte, cpu_write_byte, cpu_read_word, cpu_write_word, read_n, read_nn,
  read_d,
}
use z80e.Core.Cpu.Operands.{read_r, write_r, read_rp, write_rp, hl_or_i_r, hl_or_i_w, read_cc}
use z80e.Core.Cpu.Alu.{daa}
use z80e.Core.Cpu.Instructions.Cb.{move_pc_back, move_pc_on}

-- The flags of `ADD HL, rp[p]`: sign, zero and parity stay.
unfoldable pub add_hl_flags : ℕ → ℕ → ℕ → Registers → Registers
add_hl_flags old16 op16 new16 r = record r {
  wz = u16 new16;
  f =
      flag_s (flags_s r)
      ||| flag_zero (not (flags_z r))
      ||| flag_undef_16 new16
      ||| flag_pv (flags_pv r)
      ||| flag_subtract false
      ||| flag_carry_16 (old16 + op16)
      ||| flag_halfcarry_16_add old16 op16 0;
}

unfoldable pub inc_flags : ℕ → ℕ → Registers → Registers
inc_flags old new r = record r {
  f =
      flag_c (flags_c r)
      ||| flag_sign_8 new
      ||| flag_zero (to_bool new)
      ||| flag_halfcarry_8_add old 0 1
      ||| flag_pv (old == 0x7f)
      ||| flag_undef_8 new;
}

unfoldable pub dec_flags : ℕ → ℕ → Registers → Registers
dec_flags old new r = record r {
  f =
      flag_c (flags_c r)
      ||| flag_sign_8 new
      ||| flag_zero (to_bool new)
      ||| flag_halfcarry_8_sub old 0 1
      ||| flag_pv (old == 0x80)
      ||| flag_subtract true
      ||| flag_undef_8 new;
}

-- `flags._3` and `flags._5` from `A`.
unfoldable pub set_undef : Registers → Registers
set_undef r = set_flags_5 (ltb 0 (bit_and r.a mask_5)) (set_flags_3 (ltb 0 (bit_and r.a mask_3)) r)

-- RLCA, RRCA, RLA and RRA: the carry `out`, then the new `A`, then the other flags.
unfoldable pub rotate_a : Bool → ℕ → Registers → Registers
rotate_a out a' r =
    set_undef (set_flags_n false (set_flags_h false (record (set_flags_c out r) { a = u8 a' })))

unfoldable pub rlca : Registers → Registers
rlca r = let old = ltb 0 (bit_and r.a 0x80) in rotate_a old (u8 (r.a <<< 1) ||| to_ℕ old) r

unfoldable pub rrca : Registers → Registers
rrca r = let old = ltb 0 (bit_and r.a 1) in rotate_a old (r.a >>> 1 ||| to_ℕ old <<< 7) r

unfoldable pub rla : Registers → Registers
rla r = rotate_a (ltb 0 (bit_and r.a 0x80)) (u8 (r.a <<< 1) ||| to_ℕ (flags_c r)) r

unfoldable pub rra : Registers → Registers
rra r = rotate_a (ltb 0 (bit_and r.a 1)) (r.a >>> 1 ||| to_ℕ (flags_c r) <<< 7) r

unfoldable pub cpl : Registers → Registers
cpl r = set_undef (set_flags_n true (set_flags_h true (record r { a = 255 - r.a })))

unfoldable pub scf : Registers → Registers
scf r = set_undef (set_flags_n false (set_flags_h false (set_flags_c true r)))

unfoldable pub ccf : Registers → Registers
ccf r = set_undef (set_flags_n false (set_flags_c (not (flags_c r)) (set_flags_h (flags_c r) r)))

unfoldable pub accumulator_op : ℕ → Registers → Registers
accumulator_op y r =
    switch y r (rlca r ∷ rrca r ∷ rla r ∷ rra r ∷ daa r ∷ cpl r ∷ scf r ∷ ccf r ∷ [])

module _ {M : Type 0} (board : Board M) where
  -- `r->WZ = r->PC += d`.
  unfoldable pub jump_relative : ℕ → Exec M (Unit {0})
  jump_relative d =
      modify_registers (λ reg. record reg { pc = u16 (reg.pc + d); wz = u16 (reg.pc + d) })

  unfoldable pub djnz : Exec M (Unit {0})
  djnz = do
    add_cycles 8
    d ← read_d board
    modify_registers (λ reg. record reg { b = u8 (int_sub reg.b 1) })
    reg ← get_registers
    (if reg.b != 0 then (do add_cycles 5; jump_relative d) else pure tt)

  unfoldable pub jr_cc : ℕ → Exec M (Unit {0})
  jr_cc cc = do
    add_cycles 7
    d ← read_d board
    reg ← get_registers
    (if read_cc cc reg then (do add_cycles 5; jump_relative d) else pure tt)

  unfoldable pub execute_x0_z0 : ℕ → Exec M (Unit {0})
  execute_x0_z0 y = switch y (jr_cc (y - 4)) (
      add_cycles 4
      ∷ (do add_cycles 4; modify_registers ex_af_af)
      ∷ djnz
      ∷ (do add_cycles 12; d ← read_d board; jump_relative d)
      ∷ [])

  unfoldable pub execute_x0_z1 : ℕ → ℕ → Exec M (Unit {0})
  execute_x0_z1 q p =
      if q == 0 then (do add_cycles 10; nn ← read_nn board; write_rp board p nn; pure tt) else (do
        add_cycles 11
        old16 ← hl_or_i_r board
        op16 ← read_rp board p
        new16 ← hl_or_i_w board (old16 + op16)
        modify_registers (add_hl_flags old16 op16 new16))

  -- `r->WZ = nn`.
  unfoldable pub read_nn_to_wz : Exec M ℕ
  read_nn_to_wz = do
    nn ← read_nn board
    modify_registers (λ reg. record reg { wz = u16 nn })
    pure (u16 nn)

  unfoldable pub store_indirect : ℕ → Exec M (Unit {0})
  store_indirect p = switch p (pure tt) (
      (do add_cycles 7; r ← get_registers; cpu_write_byte board (bc r) r.a)
      ∷ (do add_cycles 7; r ← get_registers; cpu_write_byte board (de r) r.a)
      ∷ (do add_cycles 16; nn ← read_nn_to_wz; v ← hl_or_i_r board; cpu_write_word board nn v)
      ∷ (do add_cycles 13; nn ← read_nn_to_wz; r ← get_registers; cpu_write_byte board nn r.a)
      ∷ [])

  unfoldable pub load_a : ℕ → Exec M (Unit {0})
  load_a address = do
    v ← cpu_read_byte board address
    modify_registers (λ reg. record reg { a = u8 v })

  unfoldable pub load_indirect : ℕ → Exec M (Unit {0})
  load_indirect p = switch p (pure tt) (
      (do add_cycles 7; r ← get_registers; load_a (bc r))
      ∷ (do add_cycles 7; r ← get_registers; load_a (de r))
      ∷ (do
        add_cycles 16
        nn ← read_nn_to_wz
        v ← cpu_read_word board nn
        hl_or_i_w board v
        pure tt)
      ∷ (do add_cycles 13; nn ← read_nn_to_wz; load_a nn)
      ∷ [])

  unfoldable pub step_rp : ℕ → ℕ → Exec M (Unit {0})
  step_rp q p = do
    add_cycles 6
    v ← read_rp board p
    write_rp board p (if q == 0 then v + 1 else int_sub v 1)
    pure tt

  -- `y == 6 && cpu->prefix >> 8`: the operand is at `IX + d` or `IY + d`.
  unfoldable pub is_indexed : ℕ → Cpu M → Bool
  is_indexed y cpu = y == 6 && to_bool (cpu.prefix >>> 8)

  -- INC r[y] for `up`, else DEC r[y]; the displacement is read again for the write.
  unfoldable pub step_r : Bool → ℕ → Exec M (Unit {0})
  step_r up y = do
    add_cycles 4
    old ← read_r board y
    cpu ← get_cpu
    (if is_indexed y cpu then move_pc_back board else pure tt)
    new ← write_r board y (if up then old + 1 else int_sub old 1)
    modify_registers (if up then inc_flags old new else dec_flags old new)

  -- LD r[y], n; behind the prefix the displacement stands before `n`.
  unfoldable pub load_immediate : ℕ → Exec M (Unit {0})
  load_immediate y = do
    add_cycles 7
    cpu ← get_cpu
    (if is_indexed y cpu then move_pc_on board else pure tt)
    old ← read_n board
    (if is_indexed y cpu
        then modify_registers (λ reg. record reg { pc = u16 (int_sub reg.pc 2) })
        else pure tt)
    write_r board y old
    (if is_indexed y cpu then move_pc_on board else pure tt)

  unfoldable pub execute_x0 : ℕ → Exec M (Unit {0})
  execute_x0 opcode =
      let y = y_of opcode in
      let q = q_of opcode in
      let p = p_of opcode in
      switch (z_of opcode) (pure tt) (
        execute_x0_z0 y
        ∷ execute_x0_z1 q p
        ∷ (if q == 0 then store_indirect p else load_indirect p)
        ∷ step_rp q p
        ∷ step_r true y
        ∷ step_r false y
        ∷ load_immediate y
        ∷ (do add_cycles 4; modify_registers (accumulator_op y))
        ∷ [])

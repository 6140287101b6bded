-- ===== src/Core/Cpu/Instructions/Ed.antt =====
-- The branch `cpu->prefix >> 8 == 0xED` of `cpu_execute`.
use z80e.Common.{
  ℕ, ◌+◌, Bool, true, false, ◌&&◌, [], ◌∷◌, bit_and, ◌|||◌, ltb, leb, ◌==◌, ◌!=◌, if◌then◌else◌,
  switch, to_ℕ, to_bool, u8, u16, int_sub, ◌<<<◌, ◌>>>◌,
}
use z80e.Core.Flags.{
  flag_c, flag_pv, flag_subtract, flag_zero, flag_sign_8, flag_sign_16, flag_parity, flag_undef_8,
  flag_undef_16, flag_overflow_16_add, flag_overflow_16_sub, flag_carry_16, flag_halfcarry_8_sub,
  flag_halfcarry_16_add, flag_halfcarry_16_sub,
}
use z80e.Core.Registers.{Registers, hl, set_hl, flags_c}
use z80e.Core.Cpu.{
  Board, Exec, pure, ◌>>=◌, ◌>>◌, get_registers, modify_registers, get_cpu, modify_cpu, add_cycles,
  x_of, y_of, z_of, p_of, q_of, cpu_read_byte, cpu_write_byte, cpu_read_word, cpu_write_word,
  cpu_port_in, cpu_port_out, pop, read_nn,
}
use z80e.Core.Cpu.Operands.{read_r, write_r, read_rp, write_rp}
use z80e.Core.Cpu.Block.{execute_bli}
use z80e.Core.Cpu.Interrupt.{execute_im}

unfoldable pub in_flags : ℕ → Registers → Registers
in_flags new r = record r {
  f =
      flag_sign_8 new
      ||| flag_undef_8 new
      ||| flag_c (flags_c r)
      ||| flag_zero (to_bool new)
      ||| flag_parity new;
}

unfoldable pub sbc_hl : ℕ → Registers → Registers
sbc_hl op16 r =
    let old16 = hl r in
    let carry = to_ℕ (flags_c r) in
    let new = u16 (int_sub old16 (op16 + carry)) in
    record (set_hl new r) {
      wz = new;
      f =
          flag_sign_16 new
          ||| flag_zero (to_bool new)
          ||| flag_undef_16 new
          ||| flag_overflow_16_sub old16 op16 new
          ||| flag_subtract true
          ||| flag_carry_16 (int_sub (int_sub old16 op16) carry)
          ||| flag_halfcarry_16_sub old16 op16 carry;
    }

unfoldable pub adc_hl : ℕ → Registers → Registers
adc_hl op16 r =
    let old16 = hl r in
    let carry = to_ℕ (flags_c r) in
    let new = u16 (old16 + (op16 + carry)) in
    record (set_hl new r) {
      wz = new;
      f =
          flag_sign_16 new
          ||| flag_zero (to_bool new)
          ||| flag_undef_16 new
          ||| flag_overflow_16_add old16 op16 new
          ||| flag_subtract false
          ||| flag_carry_16 (old16 + op16 + carry)
          ||| flag_halfcarry_16_add old16 op16 carry;
    }

unfoldable pub neg : Registers → Registers
neg r =
    let old = r.a in
    let new = u8 (int_sub 0 r.a) in
    record r {
      a = new;
      f =
          flag_sign_8 new
          ||| flag_zero (to_bool new)
          ||| flag_undef_8 new
          ||| flag_pv (old == 0x80)
          ||| flag_subtract true
          ||| flag_c (old != 0)
          ||| flag_halfcarry_8_sub 0 old 0;
    }

-- `LD A, I` and `LD A, R`: the flag `PV` shows `IFF2`.
unfoldable pub load_a_flags : ℕ → Bool → Registers → Registers
load_a_flags v iff2 r = record r {
  a = v;
  f =
      flag_sign_8 v
      ||| flag_zero (to_bool v)
      ||| flag_undef_8 v
      ||| flag_pv iff2
      ||| flag_subtract false
      ||| flag_c (flags_c r);
}

unfoldable pub nibble_flags : ℕ → Registers → Registers
nibble_flags v r =
    let new = u8 v in
    record r {
      a = new;
      f =
          flag_c (flags_c r)
          ||| flag_sign_8 new
          ||| flag_zero (to_bool new)
          ||| flag_parity new
          ||| flag_undef_8 new;
    }

module _ {M : Type 0} (board : Board M) where
  unfoldable pub execute_rrd : Exec M (Unit {0})
  execute_rrd = do
    add_cycles 14
    r ← get_registers
    new ← cpu_read_byte board (hl r)
    cpu_write_byte board (hl r) (u8 (new >>> 4 ||| r.a <<< 4))
    modify_registers (nibble_flags (bit_and r.a 0xf0 ||| bit_and new 0x0f))

  unfoldable pub execute_rld : Exec M (Unit {0})
  execute_rld = do
    add_cycles 14
    r ← get_registers
    new ← cpu_read_byte board (hl r)
    cpu_write_byte board (hl r) (u8 (new <<< 4) ||| bit_and r.a 0x0f)
    modify_registers (nibble_flags (bit_and r.a 0xf0 ||| new >>> 4))

  -- IN r[y], (C); for y = 6 only the flags are set.
  unfoldable pub execute_in : ℕ → Exec M (Unit {0})
  execute_in y = do
    add_cycles 8
    r ← get_registers
    new ← cpu_port_in board r.c
    (if y == 6 then pure tt else (do read_r board y; write_r board y new; pure tt))
    modify_registers (in_flags new)

  -- OUT (C), r[y]; for y = 6 the value is 0xFF.
  unfoldable pub execute_out : ℕ → Exec M (Unit {0})
  execute_out y = do
    add_cycles 8
    v ← (if y == 6 then pure 0xff else read_r board y)
    r ← get_registers
    cpu_port_out board r.c v

  unfoldable pub load_word_indirect : ℕ → ℕ → Exec M (Unit {0})
  load_word_indirect q p = do
    add_cycles 16
    nn ← read_nn board
    modify_registers (λ reg. record reg { wz = u16 nn })
    (if q == 0
        then (do v ← read_rp board p; cpu_write_word board (u16 nn) v)
        else (do v ← cpu_read_word board (u16 nn); write_rp board p v; pure tt))

  unfoldable pub return_from_interrupt : Exec M (Unit {0})
  return_from_interrupt = do
    add_cycles 14
    pc' ← pop board
    modify_registers (λ reg. record reg { pc = u16 pc' })

  unfoldable pub execute_ed_misc : ℕ → Exec M (Unit {0})
  execute_ed_misc y = switch y (add_cycles 4) (
      (do add_cycles 5; modify_registers (λ reg. record reg { i = reg.a }))
      ∷ (do add_cycles 5; modify_registers (λ reg. record reg { r = reg.a }))
      ∷ (do add_cycles 5; cpu ← get_cpu; modify_registers (λ reg. load_a_flags reg.i cpu.iff2 reg))
      ∷ (do add_cycles 5; cpu ← get_cpu; modify_registers (λ reg. load_a_flags reg.r cpu.iff2 reg))
      ∷ execute_rrd
      ∷ execute_rld
      ∷ [])

  unfoldable pub execute_ed_x1 : ℕ → Exec M (Unit {0})
  execute_ed_x1 opcode =
      let y = y_of opcode in
      switch (z_of opcode) (pure tt) (
        execute_in y
        ∷ execute_out y
        ∷ (do
          add_cycles 11
          op16 ← read_rp board (p_of opcode)
          modify_registers (if q_of opcode == 0 then sbc_hl op16 else adc_hl op16))
        ∷ load_word_indirect (q_of opcode) (p_of opcode)
        ∷ (do add_cycles 4; modify_registers neg)
        ∷ return_from_interrupt
        ∷ (do add_cycles 4; execute_im y)
        ∷ execute_ed_misc y
        ∷ [])

  -- An invalid instruction, which also puts an interrupt off by one instruction.
  unfoldable pub noni : Exec M (Unit {0})
  noni = do add_cycles 4; modify_cpu (λ cpu. record cpu { iff_wait = true })

  unfoldable pub execute_ed : ℕ → Exec M (Unit {0})
  execute_ed opcode =
      if x_of opcode == 1
      then execute_ed_x1 opcode
      else (if x_of opcode == 2 && leb 4 (y_of opcode) && ltb (z_of opcode) 4
          then execute_bli board (y_of opcode) (z_of opcode)
          else noni)

-- ===== src/Core/Cpu/Alu.antt =====
-- `daa` and `execute_alu` of libz80e/src/core/cpu.c. What they do to the registers is a function
-- on the register file; `execute_alu` runs it on the context.
pub mod Arith
pub mod Decimal
pub mod Logic
use z80e.Common.{
  ℕ, zero, suc, ◌+◌, ◌-◌, ◌*◌, ◌/◌, ◌%◌, ◌^◌, Bool, true, false, not, ◌&&◌, ◌||◌, List, [], ◌∷◌,
  bit_and, bit_or, bit_xor, ◌|||◌, ltb, leb, ◌==◌, if◌then◌else◌, switch, to_ℕ, to_bool, u8, u16,
  int_sub, ◌>>>◌,
}
use z80e.Core.Flags.{
  mask_h, flag_c, flag_subtract, flag_zero, flag_carry_8, flag_sign_8, flag_parity, flag_undef_8,
  flag_overflow_8_add, flag_overflow_8_sub, flag_halfcarry_8_add, flag_halfcarry_8_sub,
}
use z80e.Core.Registers.{Registers, flags_c, flags_n, flags_h}
use z80e.Core.Cpu.{Exec, ◌>>=◌, ◌>>◌, add_cycles, modify_registers}

-- The correction `v` that `daa` adds or subtracts.
unfoldable pub daa_correction : Registers → ℕ
daa_correction r =
    let v = if ltb 9 (bit_and r.a 0xf) || flags_h r then 0x06 else 0 in
    if ltb 9 ((r.a + v) >>> 4) || to_bool (flag_carry_8 (r.a + v)) || flags_c r then v + 0x60 else v

unfoldable pub daa : Registers → Registers
daa r =
    let old = r.a in
    let v = daa_correction r in
    let new = if flags_n r then u8 (int_sub r.a v) else u8 (r.a + v) in
    record r {
      a = new;
      f =
          flag_sign_8 new
          ||| flag_zero (to_bool new)
          ||| flag_undef_8 new
          ||| flag_parity new
          ||| flag_subtract (flags_n r)
          ||| flag_c (leb 0x60 v)
          ||| (if flags_n r then flag_halfcarry_8_sub old v 0 else flag_halfcarry_8_add old v 0);
    }

unfoldable pub alu_add : ℕ → Registers → Registers
alu_add v r =
    let old = r.a in
    let new = u8 (r.a + v) in
    record r {
      a = new;
      f =
          flag_sign_8 new
          ||| flag_zero (to_bool new)
          ||| flag_undef_8 new
          ||| flag_overflow_8_add old v new
          ||| flag_subtract false
          ||| flag_carry_8 (old + v)
          ||| flag_halfcarry_8_add old v 0;
    }

unfoldable pub alu_adc : ℕ → Registers → Registers
alu_adc v r =
    let old = r.a in
    let carry = to_ℕ (flags_c r) in
    let new = u8 (r.a + (v + carry)) in
    record r {
      a = new;
      f =
          flag_sign_8 new
          ||| flag_zero (to_bool new)
          ||| flag_undef_8 new
          ||| flag_overflow_8_add old v new
          ||| flag_subtract false
          ||| flag_carry_8 (old + v + carry)
          ||| flag_halfcarry_8_add old v carry;
    }

unfoldable pub alu_sub : ℕ → Registers → Registers
alu_sub v r =
    let old = r.a in
    let new = u8 (int_sub r.a v) in
    record r {
      a = new;
      f =
          flag_sign_8 new
          ||| flag_zero (to_bool new)
          ||| flag_undef_8 new
          ||| flag_overflow_8_sub old v new
          ||| flag_subtract true
          ||| flag_carry_8 (int_sub old v)
          ||| flag_halfcarry_8_sub old v 0;
    }

unfoldable pub alu_sbc : ℕ → Registers → Registers
alu_sbc v r =
    let old = r.a in
    let carry = to_ℕ (flags_c r) in
    let new = u8 (int_sub r.a (v + carry)) in
    record r {
      a = new;
      f =
          flag_sign_8 new
          ||| flag_zero (to_bool new)
          ||| flag_undef_8 new
          ||| flag_overflow_8_sub old v new
          ||| flag_subtract true
          ||| flag_carry_8 (int_sub (int_sub old v) carry)
          ||| flag_halfcarry_8_sub old v carry;
    }

unfoldable pub alu_and : ℕ → Registers → Registers
alu_and v r =
    let new = u8 (bit_and r.a v) in
    record r {
      a = new;
      f =
          flag_sign_8 new
          ||| flag_zero (to_bool new)
          ||| flag_undef_8 new
          ||| flag_parity new
          ||| mask_h;
    }

unfoldable pub alu_xor : ℕ → Registers → Registers
alu_xor v r =
    let new = u8 (bit_xor r.a v) in
    record r {
      a = new;
      f = flag_sign_8 new ||| flag_zero (to_bool new) ||| flag_undef_8 new ||| flag_parity new;
    }

unfoldable pub alu_or : ℕ → Registers → Registers
alu_or v r =
    let new = u8 (bit_or r.a v) in
    record r {
      a = new;
      f = flag_sign_8 new ||| flag_zero (to_bool new) ||| flag_undef_8 new ||| flag_parity new;
    }

-- A comparison: the flags of a subtraction, but bits 5 and 3 of the operand.
unfoldable pub alu_cp : ℕ → Registers → Registers
alu_cp v r =
    let old = u8 (int_sub r.a v) in
    record r {
      f =
          flag_sign_8 old
          ||| flag_zero (to_bool old)
          ||| flag_undef_8 v
          ||| flag_subtract true
          ||| flag_carry_8 (int_sub r.a v)
          ||| flag_overflow_8_sub r.a v old
          ||| flag_halfcarry_8_sub r.a v 0;
    }

unfoldable pub alu : ℕ → ℕ → Registers → Registers
alu i v r = switch i r (
    alu_add v r
    ∷ alu_adc v r
    ∷ alu_sub v r
    ∷ alu_sbc v r
    ∷ alu_and v r
    ∷ alu_xor v r
    ∷ alu_or v r
    ∷ alu_cp v r
    ∷ [])

unfoldable pub execute_alu : {M : Type 0} → ℕ → ℕ → Exec M (Unit {0})
execute_alu i v = do add_cycles 4; modify_registers (alu i (u8 v))

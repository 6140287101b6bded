-- ===== src/Core/Cpu/Invariant/Pure.antt =====
-- Every field of the register file is within its width, and what acts on the register file alone
-- keeps it so.
use z80e.Common.{
  ℕ, ◌-◌, ◌^◌, ◌<◌, arith, Bool, true, false, if◌then◌else◌, bit_and, ◌|||◌, bit_or-lt, bit_and-le,
}
use z80e.Core.Flags.{
  flag_s, flag_5, flag_h, flag_3, flag_pv, flag_c, flag_subtract, flag_zero, flag_carry_16,
  flag_carry_8, flag_sign_16, flag_sign_8, flag_parity, flag_undef_8, flag_undef_8_block,
  flag_undef_16, flag_overflow_8_add, flag_overflow_8_sub, flag_overflow_16_add,
  flag_overflow_16_sub, flag_halfcarry_8_add, flag_halfcarry_8_sub, flag_halfcarry_16_add,
  flag_halfcarry_16_sub,
}
use z80e.Core.Registers.{Registers, set_flag}

pub record RegistersFit (reg : Registers) : Type 0 where
  pub a : reg.a < 256
  pub f : reg.f < 256
  pub b : reg.b < 256
  pub c : reg.c < 256
  pub d : reg.d < 256
  pub e : reg.e < 256
  pub h : reg.h < 256
  pub l : reg.l < 256
  pub af' : reg.af' < 2 ^ 16
  pub bc' : reg.bc' < 2 ^ 16
  pub de' : reg.de' < 2 ^ 16
  pub hl' : reg.hl' < 2 ^ 16
  pub pc : reg.pc < 2 ^ 16
  pub sp : reg.sp < 2 ^ 16
  pub ixh : reg.ixh < 256
  pub ixl : reg.ixl < 256
  pub iyh : reg.iyh < 256
  pub iyl : reg.iyl < 256
  pub i : reg.i < 256
  pub r : reg.r < 256
  pub wz : reg.wz < 2 ^ 16

-- A mask of flags fits a byte, and so does every `F` put together from such masks.
pub record IsByte (n : ℕ) : Type 0 where
  pub below : n < 256

pub IsByte-or : (a b : ℕ) → IsByte a → IsByte b → IsByte (a ||| b)
IsByte-or a b p q = record { below = bit_or-lt 8 a b p.below q.below }

IsByte-if : (m : ℕ) (t : Bool) → m < 256 → IsByte (if t then m else 0)
IsByte-if m t h = record { below = ground arith }

pub IsByte-flag_s : (t : Bool) → IsByte (flag_s t)
unfolding flag_s
IsByte-flag_s t = IsByte-if _ t (omega arith)

pub IsByte-flag_5 : (t : Bool) → IsByte (flag_5 t)
unfolding flag_5
IsByte-flag_5 t = IsByte-if _ t (omega arith)

pub IsByte-flag_h : (t : Bool) → IsByte (flag_h t)
unfolding flag_h
IsByte-flag_h t = IsByte-if _ t (omega arith)

pub IsByte-flag_3 : (t : Bool) → IsByte (flag_3 t)
unfolding flag_3
IsByte-flag_3 t = IsByte-if _ t (omega arith)

pub IsByte-flag_pv : (t : Bool) → IsByte (flag_pv t)
unfolding flag_pv
IsByte-flag_pv t = IsByte-if _ t (omega arith)

pub IsByte-flag_c : (t : Bool) → IsByte (flag_c t)
unfolding flag_c
IsByte-flag_c t = IsByte-if _ t (omega arith)

pub IsByte-flag_subtract : (t : Bool) → IsByte (flag_subtract t)
unfolding flag_subtract
IsByte-flag_subtract t = IsByte-if _ t (omega arith)

pub IsByte-flag_zero : (t : Bool) → IsByte (flag_zero t)
unfolding flag_zero
IsByte-flag_zero t = record { below = ground arith }

pub ruleset base_flags = (
  IsByte-or, IsByte-flag_s, IsByte-flag_5, IsByte-flag_h, IsByte-flag_3, IsByte-flag_pv,
  IsByte-flag_c, IsByte-flag_subtract, IsByte-flag_zero,
)

pub IsByte-flag_carry_16 : (a : ℕ) → IsByte (flag_carry_16 a)
unfolding flag_carry_16
IsByte-flag_carry_16 a = search base_flags

pub IsByte-flag_carry_8 : (a : ℕ) → IsByte (flag_carry_8 a)
unfolding flag_carry_8
IsByte-flag_carry_8 a = search base_flags

pub IsByte-flag_sign_16 : (a : ℕ) → IsByte (flag_sign_16 a)
unfolding flag_sign_16
IsByte-flag_sign_16 a = search base_flags

pub IsByte-flag_sign_8 : (a : ℕ) → IsByte (flag_sign_8 a)
unfolding flag_sign_8
IsByte-flag_sign_8 a = search base_flags

pub IsByte-flag_parity : (a : ℕ) → IsByte (flag_parity a)
unfolding flag_parity
IsByte-flag_parity a = search base_flags

pub IsByte-flag_undef_8 : (a : ℕ) → IsByte (flag_undef_8 a)
unfolding flag_undef_8
IsByte-flag_undef_8 a = search base_flags

pub IsByte-flag_undef_8_block : (a : ℕ) → IsByte (flag_undef_8_block a)
unfolding flag_undef_8_block
IsByte-flag_undef_8_block a = search base_flags

pub IsByte-flag_undef_16 : (a : ℕ) → IsByte (flag_undef_16 a)
unfolding flag_undef_16
IsByte-flag_undef_16 a = search base_flags

pub IsByte-flag_overflow_8_add : (a b c : ℕ) → IsByte (flag_overflow_8_add a b c)
unfolding flag_overflow_8_add
IsByte-flag_overflow_8_add a b c = search base_flags

pub IsByte-flag_overflow_8_sub : (a b c : ℕ) → IsByte (flag_overflow_8_sub a b c)
unfolding flag_overflow_8_sub
IsByte-flag_overflow_8_sub a b c = search base_flags

pub IsByte-flag_overflow_16_add : (a b c : ℕ) → IsByte (flag_overflow_16_add a b c)
unfolding flag_overflow_16_add
IsByte-flag_overflow_16_add a b c = search base_flags

pub IsByte-flag_overflow_16_sub : (a b c : ℕ) → IsByte (flag_overflow_16_sub a b c)
unfolding flag_overflow_16_sub
IsByte-flag_overflow_16_sub a b c = search base_flags

pub IsByte-flag_halfcarry_8_add : (a b c : ℕ) → IsByte (flag_halfcarry_8_add a b c)
unfolding flag_halfcarry_8_add
IsByte-flag_halfcarry_8_add a b c = search base_flags

pub IsByte-flag_halfcarry_8_sub : (a b c : ℕ) → IsByte (flag_halfcarry_8_sub a b c)
unfolding flag_halfcarry_8_sub
IsByte-flag_halfcarry_8_sub a b c = search base_flags

pub IsByte-flag_halfcarry_16_add : (a b c : ℕ) → IsByte (flag_halfcarry_16_add a b c)
unfolding flag_halfcarry_16_add
IsByte-flag_halfcarry_16_add a b c = search base_flags

pub IsByte-flag_halfcarry_16_sub : (a b c : ℕ) → IsByte (flag_halfcarry_16_sub a b c)
unfolding flag_halfcarry_16_sub
IsByte-flag_halfcarry_16_sub a b c = search base_flags

pub IsByte-choose : (t : Bool) (a b : ℕ) → IsByte a → IsByte b → IsByte (if t then a else b)
IsByte-choose true a b p q = p
IsByte-choose false a b p q = q

pub IsByte-mask_h : IsByte 0x10
IsByte-mask_h = record { below = omega arith }

-- A part of the old `F`.
pub IsByte-and : (f m : ℕ) → f < 256 → IsByte (bit_and f m)
IsByte-and f m h = record { below = omega (arith, bit_and-le f m) }

-- A store into a bit-field.
pub IsByte-set_flag : (m : ℕ) (t : Bool) (f : ℕ) → m < 256 → f < 256 → IsByte (set_flag m t f)
unfolding set_flag
IsByte-set_flag m t f p q =
    IsByte-or _ _ (IsByte-and f (255 - m) q) (record { below = ground arith })

pub ruleset flag_bytes = (
  IsByte-choose, IsByte-mask_h, base_flags, IsByte-flag_carry_16, IsByte-flag_carry_8,
  IsByte-flag_sign_16, IsByte-flag_sign_8, IsByte-flag_parity, IsByte-flag_undef_8,
  IsByte-flag_undef_8_block, IsByte-flag_undef_16, IsByte-flag_overflow_8_add,
  IsByte-flag_overflow_8_sub, IsByte-flag_overflow_16_add, IsByte-flag_overflow_16_sub,
  IsByte-flag_halfcarry_8_add, IsByte-flag_halfcarry_8_sub, IsByte-flag_halfcarry_16_add,
  IsByte-flag_halfcarry_16_sub,
)

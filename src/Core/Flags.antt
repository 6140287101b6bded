-- ===== src/Core/Flags.antt =====
-- The flag macros of libz80e/include/z80e/core/registers.h and `parity` of
-- libz80e/src/core/registers.c. A macro that yields a flag mask or 0 keeps its name, without the
-- leading underscores; a test that C takes of a number is `to_bool`.
pub mod Laws
use z80e.Common.{
  ℕ, ◌+◌, Bool, not, ◌&&◌, bit_and, bit_xor, ◌==◌, ◌!=◌, if◌then◌else◌, to_bool, u8, u16, int_sub,
  ◌>>>◌, ◌|||◌,
}

-- `z80flags`.
abbrev pub mask_s : ℕ
mask_s = 0x80

abbrev pub mask_z : ℕ
mask_z = 0x40

abbrev pub mask_5 : ℕ
mask_5 = 0x20

abbrev pub mask_h : ℕ
mask_h = 0x10

abbrev pub mask_3 : ℕ
mask_3 = 0x08

abbrev pub mask_pv : ℕ
mask_pv = 0x04

abbrev pub mask_n : ℕ
mask_n = 0x02

abbrev pub mask_c : ℕ
mask_c = 0x01

unfoldable pub flag_s : Bool → ℕ
flag_s a = if a then mask_s else 0

unfoldable pub flag_5 : Bool → ℕ
flag_5 a = if a then mask_5 else 0

unfoldable pub flag_h : Bool → ℕ
flag_h a = if a then mask_h else 0

unfoldable pub flag_3 : Bool → ℕ
flag_3 a = if a then mask_3 else 0

unfoldable pub flag_pv : Bool → ℕ
flag_pv a = if a then mask_pv else 0

unfoldable pub flag_c : Bool → ℕ
flag_c a = if a then mask_c else 0

unfoldable pub flag_subtract : Bool → ℕ
flag_subtract a = if a then mask_n else 0

unfoldable pub flag_zero : Bool → ℕ
flag_zero a = if a then 0 else mask_z

-- The four steps of `parity` on a `uint8_t`: 1 for an odd number of ones.
unfoldable pub parity : ℕ → ℕ
parity x =
    let x₁ = bit_xor x (x >>> 4) in
    let x₂ = bit_xor x₁ (x₁ >>> 2) in let x₃ = bit_xor x₂ (x₂ >>> 1) in bit_and x₃ 1

unfoldable pub flag_carry_16 : ℕ → ℕ
flag_carry_16 a = flag_c (to_bool (bit_and a 0x10000))

unfoldable pub flag_carry_8 : ℕ → ℕ
flag_carry_8 a = flag_c (to_bool (bit_and a 0x100))

unfoldable pub flag_sign_16 : ℕ → ℕ
flag_sign_16 a = flag_s (to_bool (bit_and a 0x8000))

unfoldable pub flag_sign_8 : ℕ → ℕ
flag_sign_8 a = flag_s (to_bool (bit_and a 0x80))

unfoldable pub flag_parity : ℕ → ℕ
flag_parity a = flag_pv (not (to_bool (parity a)))

unfoldable pub flag_undef_8 : ℕ → ℕ
flag_undef_8 a = flag_5 (to_bool (bit_and (u8 a) 0x20)) ||| flag_3 (to_bool (bit_and (u8 a) 0x8))

unfoldable pub flag_undef_8_block : ℕ → ℕ
flag_undef_8_block a =
    flag_5 (to_bool (bit_and (u8 a) 0x2)) ||| flag_3 (to_bool (bit_and (u8 a) 0x8))

unfoldable pub flag_undef_16 : ℕ → ℕ
flag_undef_16 a =
    flag_5 (to_bool (bit_and (u16 a) 0x2000)) ||| flag_3 (to_bool (bit_and (u16 a) 0x800))

unfoldable pub flag_overflow_8_add : ℕ → ℕ → ℕ → ℕ
flag_overflow_8_add op1 op2 result =
    flag_pv (bit_and op1 0x80 == bit_and op2 0x80 && bit_and op1 0x80 != bit_and result 0x80)

unfoldable pub flag_overflow_8_sub : ℕ → ℕ → ℕ → ℕ
flag_overflow_8_sub op1 op2 result =
    flag_pv (bit_and op1 0x80 != bit_and op2 0x80 && bit_and op1 0x80 != bit_and result 0x80)

unfoldable pub flag_overflow_16_add : ℕ → ℕ → ℕ → ℕ
flag_overflow_16_add op1 op2 result =
    flag_pv
      (bit_and op1 0x8000 == bit_and op2 0x8000 && bit_and op1 0x8000 != bit_and result 0x8000)

unfoldable pub flag_overflow_16_sub : ℕ → ℕ → ℕ → ℕ
flag_overflow_16_sub op1 op2 result =
    flag_pv
      (bit_and op1 0x8000 != bit_and op2 0x8000 && bit_and op1 0x8000 != bit_and result 0x8000)

unfoldable pub flag_halfcarry_8_add : ℕ → ℕ → ℕ → ℕ
flag_halfcarry_8_add op1 op2 carry =
    flag_h (to_bool (bit_and (bit_and op1 0xf + bit_and op2 0xf + carry) 0x10))

unfoldable pub flag_halfcarry_8_sub : ℕ → ℕ → ℕ → ℕ
flag_halfcarry_8_sub op1 op2 carry =
    flag_h (to_bool (bit_and (int_sub (int_sub (bit_and op1 0xf) (bit_and op2 0xf)) carry) 0x10))

unfoldable pub flag_halfcarry_16_add : ℕ → ℕ → ℕ → ℕ
flag_halfcarry_16_add op1 op2 carry =
    flag_h (to_bool (bit_and (bit_and op1 0xfff + bit_and op2 0xfff + carry) 0x1000))

unfoldable pub flag_halfcarry_16_sub : ℕ → ℕ → ℕ → ℕ
flag_halfcarry_16_sub op1 op2 carry =
    flag_h
      (to_bool (bit_and (int_sub (int_sub (bit_and op1 0xfff) (bit_and op2 0xfff)) carry) 0x1000))

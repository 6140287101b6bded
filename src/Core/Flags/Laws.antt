-- ===== src/Core/Flags/Laws.antt =====
-- Which bit of `F` each flag macro sets, and when.
use mathlib.Core.Bool.{xor}
use z80e.Common.{
  ℕ, zero, suc, ◌+◌, ◌-◌, ◌*◌, ◌/◌, ◌%◌, ◌^◌, ◌≤◌, ◌<◌, ◌≡◌, refl, arith, Bool, true, false, not,
  ◌&&◌, ◌||◌, bit_and, ◌==◌, ◌!=◌, if◌then◌else◌, to_bool, to_ℕ, u8, u16, int_sub, bit, bit-bit_or,
  mask-bit, bit_and-two-pow, bit_and-low, ◌|||◌,
}
use z80e.Core.Flags.{
  mask_s, mask_z, mask_5, mask_h, mask_3, mask_pv, mask_n, mask_c, flag_s, flag_5, flag_h, flag_3,
  flag_pv, flag_c, flag_subtract, flag_zero, parity, flag_carry_16, flag_carry_8, flag_sign_16,
  flag_sign_8, flag_parity, flag_undef_8, flag_undef_8_block, flag_undef_16, flag_overflow_8_add,
  flag_overflow_8_sub, flag_overflow_16_add, flag_overflow_16_sub, flag_halfcarry_8_add,
  flag_halfcarry_8_sub,
}

pub bit-zero : (k : ℕ) → bit k 0 ≡ false
bit-zero k = ground arith

pub bit-if : (k m : ℕ) (a : Bool) → bit k (if a then m else 0) ≡ (a && bit k m)
bit-if k m true = refl
bit-if k m false = bit-zero k

pub and-true : (a : Bool) → (a && true) ≡ a
and-true a = ground arith

pub and-false : (a : Bool) → (a && false) ≡ false
and-false a = ground arith

pub or-false : (a : Bool) → (a || false) ≡ a
or-false a = ground arith

pub ruleset bool_units = (and-true, and-false, or-false)

pub bit-flag_s : (k : ℕ) (a : Bool) → bit k (flag_s a) ≡ (a && bit k mask_s)
unfolding flag_s
bit-flag_s k a = bit-if k mask_s a

pub bit-flag_5 : (k : ℕ) (a : Bool) → bit k (flag_5 a) ≡ (a && bit k mask_5)
unfolding flag_5
bit-flag_5 k a = bit-if k mask_5 a

pub bit-flag_h : (k : ℕ) (a : Bool) → bit k (flag_h a) ≡ (a && bit k mask_h)
unfolding flag_h
bit-flag_h k a = bit-if k mask_h a

pub bit-flag_3 : (k : ℕ) (a : Bool) → bit k (flag_3 a) ≡ (a && bit k mask_3)
unfolding flag_3
bit-flag_3 k a = bit-if k mask_3 a

pub bit-flag_pv : (k : ℕ) (a : Bool) → bit k (flag_pv a) ≡ (a && bit k mask_pv)
unfolding flag_pv
bit-flag_pv k a = bit-if k mask_pv a

pub bit-flag_c : (k : ℕ) (a : Bool) → bit k (flag_c a) ≡ (a && bit k mask_c)
unfolding flag_c
bit-flag_c k a = bit-if k mask_c a

pub bit-flag_subtract : (k : ℕ) (a : Bool) → bit k (flag_subtract a) ≡ (a && bit k mask_n)
unfolding flag_subtract
bit-flag_subtract k a = bit-if k mask_n a

pub bit-flag_zero : (k : ℕ) (a : Bool) → bit k (flag_zero a) ≡ (not a && bit k mask_z)
unfolding flag_zero
bit-flag_zero k true = bit-zero k
bit-flag_zero k false = refl

pub bit-flag_carry_8 : (k a : ℕ) → bit k (flag_carry_8 a) ≡ (bit 8 a && bit k mask_c)
unfolding flag_carry_8
bit-flag_carry_8 k a = rw (bit-flag_c, mask-bit 8 a)

pub bit-flag_carry_16 : (k a : ℕ) → bit k (flag_carry_16 a) ≡ (bit 16 a && bit k mask_c)
unfolding flag_carry_16
bit-flag_carry_16 k a = rw (bit-flag_c, mask-bit 16 a)

pub bit-flag_sign_8 : (k a : ℕ) → bit k (flag_sign_8 a) ≡ (bit 7 a && bit k mask_s)
unfolding flag_sign_8
bit-flag_sign_8 k a = rw (bit-flag_s, mask-bit 7 a)

pub bit-flag_sign_16 : (k a : ℕ) → bit k (flag_sign_16 a) ≡ (bit 15 a && bit k mask_s)
unfolding flag_sign_16
bit-flag_sign_16 k a = rw (bit-flag_s, mask-bit 15 a)

pub bit-flag_parity :
    (k a : ℕ) → bit k (flag_parity a) ≡ (not (to_bool (parity a)) && bit k mask_pv)
unfolding flag_parity
bit-flag_parity k a = bit-flag_pv k (not (to_bool (parity a)))

pub bit-flag_undef_8 :
    (k a : ℕ)
    → bit k (flag_undef_8 a) ≡ ((bit 5 (u8 a) && bit k mask_5) || (bit 3 (u8 a) && bit k mask_3))
unfolding flag_undef_8
bit-flag_undef_8 k a = rw (bit-bit_or, bit-flag_5, bit-flag_3, mask-bit 5 (u8 a), mask-bit 3 (u8 a))

pub bit-flag_undef_8_block :
    (k a : ℕ)
    → bit k (flag_undef_8_block a)
      ≡ ((bit 1 (u8 a) && bit k mask_5) || (bit 3 (u8 a) && bit k mask_3))
unfolding flag_undef_8_block
bit-flag_undef_8_block k a =
    rw (bit-bit_or, bit-flag_5, bit-flag_3, mask-bit 1 (u8 a), mask-bit 3 (u8 a))

pub bit-flag_undef_16 :
    (k a : ℕ)
    → bit k (flag_undef_16 a)
      ≡ ((bit 13 (u16 a) && bit k mask_5) || (bit 11 (u16 a) && bit k mask_3))
unfolding flag_undef_16
bit-flag_undef_16 k a =
    rw (bit-bit_or, bit-flag_5, bit-flag_3, mask-bit 13 (u16 a), mask-bit 11 (u16 a))

-- Masked sign bits are equal where the signs are.
mask_eq : (a b : Bool) → ((if a then 2 ^ 7 else 0) == (if b then 2 ^ 7 else 0)) ≡ not (xor a b)
unfolding xor
mask_eq true true = refl
mask_eq true false = refl
mask_eq false true = refl
mask_eq false false = refl

mask_ne : (a b : Bool) → ((if a then 2 ^ 7 else 0) != (if b then 2 ^ 7 else 0)) ≡ xor a b
unfolding xor
mask_ne true true = refl
mask_ne true false = refl
mask_ne false true = refl
mask_ne false false = refl

mask_eq_word :
    (a b : Bool) → ((if a then 2 ^ 15 else 0) == (if b then 2 ^ 15 else 0)) ≡ not (xor a b)
unfolding xor
mask_eq_word true true = refl
mask_eq_word true false = refl
mask_eq_word false true = refl
mask_eq_word false false = refl

mask_ne_word : (a b : Bool) → ((if a then 2 ^ 15 else 0) != (if b then 2 ^ 15 else 0)) ≡ xor a b
unfolding xor
mask_ne_word true true = refl
mask_ne_word true false = refl
mask_ne_word false true = refl
mask_ne_word false false = refl

-- Two sums overflow where the operands agree in sign and the result does not.
pub bit-flag_overflow_8_add :
    (k a b r : ℕ)
    → bit k (flag_overflow_8_add a b r)
      ≡ ((not (xor (bit 7 a) (bit 7 b)) && xor (bit 7 a) (bit 7 r)) && bit k mask_pv)
unfolding flag_overflow_8_add
bit-flag_overflow_8_add k a b r = rw (
  bit-flag_pv,
  bit_and-two-pow 7 a,
  bit_and-two-pow 7 b,
  bit_and-two-pow 7 r,
  mask_eq (bit 7 a) (bit 7 b),
  mask_ne (bit 7 a) (bit 7 r),
)

pub bit-flag_overflow_8_sub :
    (k a b r : ℕ)
    → bit k (flag_overflow_8_sub a b r)
      ≡ ((xor (bit 7 a) (bit 7 b) && xor (bit 7 a) (bit 7 r)) && bit k mask_pv)
unfolding flag_overflow_8_sub
bit-flag_overflow_8_sub k a b r = rw (
  bit-flag_pv,
  bit_and-two-pow 7 a,
  bit_and-two-pow 7 b,
  bit_and-two-pow 7 r,
  mask_ne (bit 7 a) (bit 7 b),
  mask_ne (bit 7 a) (bit 7 r),
)

pub bit-flag_overflow_16_add :
    (k a b r : ℕ)
    → bit k (flag_overflow_16_add a b r)
      ≡ ((not (xor (bit 15 a) (bit 15 b)) && xor (bit 15 a) (bit 15 r)) && bit k mask_pv)
unfolding flag_overflow_16_add
bit-flag_overflow_16_add k a b r = rw (
  bit-flag_pv,
  bit_and-two-pow 15 a,
  bit_and-two-pow 15 b,
  bit_and-two-pow 15 r,
  mask_eq_word (bit 15 a) (bit 15 b),
  mask_ne_word (bit 15 a) (bit 15 r),
)

pub bit-flag_overflow_16_sub :
    (k a b r : ℕ)
    → bit k (flag_overflow_16_sub a b r)
      ≡ ((xor (bit 15 a) (bit 15 b) && xor (bit 15 a) (bit 15 r)) && bit k mask_pv)
unfolding flag_overflow_16_sub
bit-flag_overflow_16_sub k a b r = rw (
  bit-flag_pv,
  bit_and-two-pow 15 a,
  bit_and-two-pow 15 b,
  bit_and-two-pow 15 r,
  mask_ne_word (bit 15 a) (bit 15 b),
  mask_ne_word (bit 15 a) (bit 15 r),
)

pub bit-flag_halfcarry_8_add :
    (k a b c : ℕ)
    → bit k (flag_halfcarry_8_add a b c) ≡ (bit 4 (a % 16 + b % 16 + c) && bit k mask_h)
unfolding flag_halfcarry_8_add
bit-flag_halfcarry_8_add k a b c =
    rw (bit-flag_h, bit_and-low 4 a, bit_and-low 4 b, mask-bit 4 (a % 16 + b % 16 + c))

pub bit-flag_halfcarry_8_sub :
    (k a b c : ℕ)
    → bit k (flag_halfcarry_8_sub a b c)
      ≡ (bit 4 (int_sub (int_sub (a % 16) (b % 16)) c) && bit k mask_h)
unfolding flag_halfcarry_8_sub
bit-flag_halfcarry_8_sub k a b c = rw (
  bit-flag_h,
  bit_and-low 4 a,
  bit_and-low 4 b,
  mask-bit 4 (int_sub (int_sub (a % 16) (b % 16)) c),
)

-- Rewriting by these leaves of a bit of an `F` put together by `|` the one test that sets it.
pub ruleset flag_bits = (
  bit-bit_or, bit-flag_s, bit-flag_5, bit-flag_h, bit-flag_3, bit-flag_pv, bit-flag_c,
  bit-flag_subtract, bit-flag_zero, bit-flag_carry_8, bit-flag_carry_16, bit-flag_sign_8,
  bit-flag_sign_16, bit-flag_parity, bit-flag_undef_8, bit-flag_undef_8_block, bit-flag_undef_16,
  bit-flag_overflow_8_add, bit-flag_overflow_8_sub, bit-flag_overflow_16_add,
  bit-flag_overflow_16_sub, bit-flag_halfcarry_8_add, bit-flag_halfcarry_8_sub, bool_units,
)

-- ===== src/Core/Cpu/Alu/Logic.antt =====
-- The logical operations of `execute_alu`, and `parity`.
use mathlib.Core.Bool.{xor}
use z80e.Common.{
  ℕ, zero, suc, ◌+◌, ◌%◌, ◌<◌, ◌≡◌, refl, arith, Bool, true, false, not, ◌&&◌, ◌||◌, leb, ◌==◌,
  ==_iff, failures, no_failure, switch, to_bool, to_ℕ, u8, bit, bit_and, bit_or, bit_xor,
  bit-bit_and, bit-bit_or, bit-bit_xor, bit_and-le, bit_or-lt, bit_xor-lt,
}
use z80e.Core.Flags.{parity}
use z80e.Core.Flags.Laws.{flag_bits}
use z80e.Core.Registers.{Registers, flags_c, flags_n, flags_pv, flags_h, flags_z, flags_s}
use z80e.Core.Cpu.Alu.{alu, alu_and, alu_xor, alu_or}

-- The number of ones among the low `k` bits.
abbrev pub ones : ℕ → ℕ → ℕ
ones zero x = 0
ones (suc k) x = ones k x + to_ℕ (bit k x)

parity_table : failures (λ x. parity x == ones 8 x % 2) 256 ≡ 0
unfolding failures parity
parity_table = refl

-- For every byte, `parity` is 1 exactly when the number of ones in it is odd, else 0.
pub parity-ones : (x : ℕ) → x < 256 → parity x ≡ ones 8 x % 2
parity-ones x h = (==_iff _ _).0 (no_failure (λ x. parity x == ones 8 x % 2) x h parity_table)

-- A logical operation `op` on the bits of `x` and `y`, as the registers show it.
pub record IsLogical (op : Bool → Bool → Bool) (half : Bool) (x y : ℕ) (r' : Registers)
    : Type 0 where
  pub bits : (k : ℕ) → bit k r'.a ≡ op (bit k x) (bit k y)
  pub in_range : r'.a < 256
  pub even : flags_pv r' ≡ (ones 8 r'.a % 2 == 0)
  pub sign : flags_s r' ≡ leb 128 r'.a
  pub is_zero : flags_z r' ≡ (r'.a == 0)
  pub half_set : flags_h r' ≡ half
  pub no_carry : flags_c r' ≡ false
  pub added : flags_n r' ≡ false

fits : (x : ℕ) → x < 256 → u8 x ≡ x
fits x h = omega arith

even_lem : (x : ℕ) → x < 256 → not (to_bool (parity x)) ≡ (ones 8 x % 2 == 0)
even_lem x h = rw (parity-ones x h) (ground arith)

module _ (v : ℕ) (r : Registers) (a_byte : r.a < 256) (v_byte : v < 256) where
  alu_and-IsLogical : IsLogical ◌&&◌ true r.a v (alu_and v r)
  unfolding alu_and
  alu_and-IsLogical =
      let small : bit_and r.a v < 256 = omega (arith, bit_and-le r.a v) in
      record {
        bits = λ k. rw (fits _ small) (bit-bit_and k r.a v);
        in_range = omega arith;
        even = simp flag_bits (even_lem _ (omega arith));
        sign = simp flag_bits (ground arith);
        is_zero = simp flag_bits (ground arith);
        half_set = simp flag_bits;
        no_carry = simp flag_bits;
        added = simp flag_bits;
      }

  alu_xor-IsLogical : IsLogical xor false r.a v (alu_xor v r)
  unfolding alu_xor
  alu_xor-IsLogical =
      let small : bit_xor r.a v < 256 = bit_xor-lt 8 r.a v a_byte v_byte in
      record {
        bits = λ k. rw (fits _ small) (bit-bit_xor k r.a v);
        in_range = omega arith;
        even = simp flag_bits (even_lem _ (omega arith));
        sign = simp flag_bits (ground arith);
        is_zero = simp flag_bits (ground arith);
        half_set = simp flag_bits;
        no_carry = simp flag_bits;
        added = simp flag_bits;
      }

  alu_or-IsLogical : IsLogical ◌||◌ false r.a v (alu_or v r)
  unfolding alu_or
  alu_or-IsLogical =
      let small : bit_or r.a v < 256 = bit_or-lt 8 r.a v a_byte v_byte in
      record {
        bits = λ k. rw (fits _ small) (bit-bit_or k r.a v);
        in_range = omega arith;
        even = simp flag_bits (even_lem _ (omega arith));
        sign = simp flag_bits (ground arith);
        is_zero = simp flag_bits (ground arith);
        half_set = simp flag_bits;
        no_carry = simp flag_bits;
        added = simp flag_bits;
      }

  -- For bytes `A` and `v`, operations 4, 5 and 6 are and, exclusive or and or on every bit of `A`
  -- and `v`; `P/V` is set exactly when the new `A` has an even number of ones, sign and zero
  -- describe it, carry and `N` are clear, and half-carry is set by the conjunction alone.
  pub alu_logic :
      IsLogical ◌&&◌ true r.a v (alu 4 v r)
      × IsLogical xor false r.a v (alu 5 v r)
      × IsLogical ◌||◌ false r.a v (alu 6 v r)
  unfolding alu switch
  alu_logic = (alu_and-IsLogical, alu_xor-IsLogical, alu_or-IsLogical)

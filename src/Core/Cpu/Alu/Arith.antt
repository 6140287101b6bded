-- ===== src/Core/Cpu/Alu/Arith.antt =====
-- The additions and subtractions of `execute_alu` against integer arithmetic.
use mathlib.Core.Bool.{xor}
use z80e.Common.{
  ℕ, ◌+◌, ◌*◌, ◌%◌, ◌<◌, ◌≡◌, refl, arith, true, false, ◌||◌, ltb, leb, ◌==◌, switch, to_ℕ, u8, bit,
}
use z80e.Core.Flags.Laws.{flag_bits}
use z80e.Core.Registers.{
  Registers, flags_c, flags_n, flags_pv, flags_h, flags_z, flags_s, flags_3, flags_5,
}
use z80e.Core.Cpu.Alu.{alu, alu_add, alu_adc, alu_sub, alu_sbc, alu_cp}

-- The signed value of a byte, with 128 added.
abbrev pub signed_excess : ℕ → ℕ
signed_excess x = (x + 128) % 256

-- An 8-bit sum of `x`, `y` and a carry, as the registers show it.
pub record IsSum (x y carry : ℕ) (r' : Registers) : Type 0 where
  pub sum : r'.a + 256 * to_ℕ (flags_c r') ≡ x + y + carry
  pub in_range : r'.a < 256
  pub half : flags_h r' ≡ leb 16 (x % 16 + y % 16 + carry)
  pub sign : flags_s r' ≡ leb 128 r'.a
  pub is_zero : flags_z r' ≡ (r'.a == 0)
  pub added : flags_n r' ≡ false
  pub overflow :
      let exact = signed_excess x + signed_excess y + carry in
      flags_pv r' ≡ (ltb exact 128 || leb 384 exact)

-- An 8-bit difference of `x`, `y` and a borrow, as the registers show it.
pub record IsDifference (x y borrow : ℕ) (r' : Registers) : Type 0 where
  pub difference : r'.a + y + borrow ≡ x + 256 * to_ℕ (flags_c r')
  pub in_range : r'.a < 256
  pub half : flags_h r' ≡ ltb (x % 16) (y % 16 + borrow)
  pub sign : flags_s r' ≡ leb 128 r'.a
  pub is_zero : flags_z r' ≡ (r'.a == 0)
  pub subtracted : flags_n r' ≡ true
  pub overflow :
      let p = signed_excess x in
      let n = signed_excess y + borrow in flags_pv r' ≡ (ltb (p + 128) n || leb (n + 128) p)

module _ (v : ℕ) (r : Registers) (a_byte : r.a < 256) (v_byte : v < 256) where
  alu_add-IsSum : IsSum r.a v 0 (alu_add v r)
  unfolding alu_add xor
  alu_add-IsSum = record {
    sum = simp flag_bits (ground arith);
    in_range = omega arith;
    half = simp flag_bits (ground arith);
    sign = simp flag_bits (ground arith);
    is_zero = simp flag_bits (ground arith);
    added = simp flag_bits;
    overflow = simp flag_bits (ground arith);
  }

  alu_adc-IsSum : IsSum r.a v (to_ℕ (flags_c r)) (alu_adc v r)
  unfolding alu_adc xor
  alu_adc-IsSum = record {
    sum = simp flag_bits (ground arith);
    in_range = omega arith;
    half = simp flag_bits (ground arith);
    sign = simp flag_bits (ground arith);
    is_zero = simp flag_bits (ground arith);
    added = simp flag_bits;
    overflow = simp flag_bits (ground arith);
  }

  alu_sub-IsDifference : IsDifference r.a v 0 (alu_sub v r)
  unfolding alu_sub xor
  alu_sub-IsDifference = record {
    difference = simp flag_bits (ground arith);
    in_range = omega arith;
    half = simp flag_bits (ground arith);
    sign = simp flag_bits (ground arith);
    is_zero = simp flag_bits (ground arith);
    subtracted = simp flag_bits;
    overflow = simp flag_bits (ground arith);
  }

  alu_sbc-IsDifference : IsDifference r.a v (to_ℕ (flags_c r)) (alu_sbc v r)
  unfolding alu_sbc xor
  alu_sbc-IsDifference = record {
    difference = simp flag_bits (ground arith);
    in_range = omega arith;
    half = simp flag_bits (ground arith);
    sign = simp flag_bits (ground arith);
    is_zero = simp flag_bits (ground arith);
    subtracted = simp flag_bits;
    overflow = simp flag_bits (ground arith);
  }

  -- For bytes `A` and `v`, operation 0 adds `v` to `A` and operation 1 adds the carry as well:
  -- the new `A` and the carry flag make up the exact sum, half-carry is the carry out of the low
  -- nibbles, sign and zero describe the new `A`, `N` is clear, and `P/V` is set exactly when the
  -- sum of the signed values is out of the range of a signed byte.
  pub alu_additions : IsSum r.a v 0 (alu 0 v r) × IsSum r.a v (to_ℕ (flags_c r)) (alu 1 v r)
  unfolding alu switch
  alu_additions = (alu_add-IsSum, alu_adc-IsSum)

  -- For bytes `A` and `v`, operation 2 subtracts `v` from `A` and operation 3 subtracts the carry
  -- as well: the new `A` and the carry flag make up the exact difference, half-carry is the borrow
  -- of the low nibbles, sign and zero describe the new `A`, `N` is set, and `P/V` is set exactly
  -- when the difference of the signed values is out of the range of a signed byte.
  pub alu_subtractions :
      IsDifference r.a v 0 (alu 2 v r) × IsDifference r.a v (to_ℕ (flags_c r)) (alu 3 v r)
  unfolding alu switch
  alu_subtractions = (alu_sub-IsDifference, alu_sbc-IsDifference)

-- Operation 7 (`CP`) leaves every register but `F`; its flags are those of the subtraction
-- (operation 2), but for bits 5 and 3, which it takes from the operand and not from the result.
pub alu_comparison :
    (v : ℕ) (r : Registers)
    → let compared = alu 7 v r in
      let subtracted = alu 2 v r in
      (record compared { f = r.f } ≡ r)
      × (flags_c compared ≡ flags_c subtracted)
      × (flags_n compared ≡ flags_n subtracted)
      × (flags_pv compared ≡ flags_pv subtracted)
      × (flags_h compared ≡ flags_h subtracted)
      × (flags_z compared ≡ flags_z subtracted)
      × (flags_s compared ≡ flags_s subtracted)
      × (flags_3 compared ≡ bit 3 (u8 v))
      × (flags_5 compared ≡ bit 5 (u8 v))
unfolding alu alu_cp alu_sub switch
alu_comparison v r = (
  refl,
  simp flag_bits,
  simp flag_bits,
  simp flag_bits,
  simp flag_bits,
  simp flag_bits,
  simp flag_bits,
  simp flag_bits,
  simp flag_bits,
)

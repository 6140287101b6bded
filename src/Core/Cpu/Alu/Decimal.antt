-- ===== src/Core/Cpu/Alu/Decimal.antt =====
-- `daa` after an addition or a subtraction of packed decimal bytes.
use z80e.Common.{
  ℕ, ◌+◌, ◌*◌, ◌/◌, ◌%◌, ◌≤◌, ◌<◌, ◌≡◌, refl, arith, Bool, ◌||◌, ltb, leb, if◌then◌else◌, to_bool,
  to_ℕ, u8, int_sub, bit, bit_and-low, Bool-cases, inl, inr, mask-bit,
}
use z80e.Core.Flags.{flag_carry_8, flag_c}
use z80e.Core.Flags.Laws.{flag_bits}
use z80e.Core.Registers.{Registers, flags_c, flags_n, flags_h}
use z80e.Core.Cpu.Alu.{daa, daa_correction, alu}
use z80e.Core.Cpu.Alu.Arith.{IsSum, IsDifference, alu_additions, alu_subtractions}

-- Two decimal digits in a byte, and their value.
abbrev pub IsBcd : ℕ → Type 0
IsBcd x = (x / 16 ≤ 9) × (x % 16 ≤ 9)

abbrev pub bcd_value : ℕ → ℕ
bcd_value x = x / 16 * 10 + x % 16

carry_test : (a : ℕ) → to_bool (flag_carry_8 a) ≡ bit 8 a
unfolding flag_carry_8 flag_c
carry_test a = rw (mask-bit 8 a) (ground arith)

daa_correction_lem :
    (r : Registers)
    → r.a < 256
    → daa_correction r ≡ (
        let v : ℕ = if ltb 9 (r.a % 16) || flags_h r then 6 else 0 in
        if leb 160 (r.a + v) || flags_c r then v + 0x60 else v)
unfolding daa_correction
daa_correction_lem r h = simp (bit_and-low 4, carry_test) (ground arith)

daa-a :
    (r : Registers)
    → (daa r).a
      ≡ (if flags_n r then u8 (int_sub r.a (daa_correction r)) else u8 (r.a + daa_correction r))
unfolding daa
daa-a r = refl

daa-flags_c : (r : Registers) → flags_c (daa r) ≡ leb 0x60 (daa_correction r)
unfolding daa
daa-flags_c r = elim (Bool-cases (flags_n r)) [
  | inl e ↦ rw e (simp flag_bits)
  | inr e ↦ rw e (simp flag_bits)
]

-- The correction as a function of `A`, half-carry and carry.
abbrev correction : ℕ → Bool → Bool → ℕ
correction a h c =
    let v : ℕ = if ltb 9 (a % 16) || h then 6 else 0 in if leb 160 (a + v) || c then v + 0x60 else v

corrected_sum :
    (a x y carry : ℕ) (c : Bool)
    → IsBcd x
    → IsBcd y
    → carry ≤ 1
    → a < 256
    → a + 256 * to_ℕ c ≡ x + y + carry
    → let v = correction a (leb 16 (x % 16 + y % 16 + carry)) c in
      IsBcd (u8 (a + v))
      × (bcd_value (u8 (a + v)) + 100 * to_ℕ (leb 0x60 v) ≡ bcd_value x + bcd_value y + carry)
corrected_sum a x y carry c hx hy hc ha e = ground arith

corrected_difference :
    (a x y borrow : ℕ) (c : Bool)
    → IsBcd x
    → IsBcd y
    → borrow ≤ 1
    → a < 256
    → a + y + borrow ≡ x + 256 * to_ℕ c
    → let v = correction a (ltb (x % 16) (y % 16 + borrow)) c in
      IsBcd (u8 (int_sub a v))
      × (bcd_value (u8 (int_sub a v)) + bcd_value y + borrow
          ≡ bcd_value x + 100 * to_ℕ (leb 0x60 v))
corrected_difference a x y borrow c hx hy hc ha e = ground arith

daa-IsSum :
    (x y carry : ℕ) (s : Registers)
    → IsBcd x
    → IsBcd y
    → carry ≤ 1
    → IsSum x y carry s
    → IsBcd (daa s).a
      × (bcd_value (daa s).a + 100 * to_ℕ (flags_c (daa s)) ≡ bcd_value x + bcd_value y + carry)
daa-IsSum x y carry s hx hy hc sum =
    rw (daa-flags_c s, daa-a s, daa_correction_lem s sum.in_range, sum.half, sum.added)
      (corrected_sum s.a x y carry (flags_c s) hx hy hc sum.in_range sum.sum)

daa-IsDifference :
    (x y borrow : ℕ) (s : Registers)
    → IsBcd x
    → IsBcd y
    → borrow ≤ 1
    → IsDifference x y borrow s
    → IsBcd (daa s).a
      × (bcd_value (daa s).a + bcd_value y + borrow ≡ bcd_value x + 100 * to_ℕ (flags_c (daa s)))
daa-IsDifference x y borrow s hx hy hc diff =
    rw (daa-flags_c s, daa-a s, daa_correction_lem s diff.in_range, diff.half, diff.subtracted)
      (corrected_difference s.a x y borrow (flags_c s) hx hy hc diff.in_range diff.difference)

abbrev pub carry_in : Registers → ℕ
carry_in r = to_ℕ (flags_c r)

carry_in-le : (r : Registers) → carry_in r ≤ 1
carry_in-le r = ground arith

module _ (v : ℕ) (r : Registers) (a_bcd : IsBcd r.a) (v_bcd : IsBcd v) where
  -- For packed decimal `A` and `v`, `DAA` after an addition (operation 0, or 1 with the carry)
  -- leaves a packed decimal byte; it and the carry flag make up the exact decimal sum.
  pub daa_after_addition :
      let t = daa (alu 0 v r) in
      let u = daa (alu 1 v r) in
      IsBcd t.a
      × IsBcd u.a
      × (bcd_value t.a + 100 * carry_in t ≡ bcd_value r.a + bcd_value v)
      × (bcd_value u.a + 100 * carry_in u ≡ bcd_value r.a + bcd_value v + carry_in r)
  daa_after_addition =
      let sums = alu_additions v r (omega arith) (omega arith) in
      let t = daa-IsSum r.a v 0 (alu 0 v r) a_bcd v_bcd (omega arith) sums.0 in
      let u = daa-IsSum r.a v (carry_in r) (alu 1 v r) a_bcd v_bcd (carry_in-le r) sums.1 in
      (t.0, u.0, omega (arith, t.1), u.1)

  -- For packed decimal `A` and `v`, `DAA` after a subtraction (operation 2, or 3 with the carry)
  -- leaves a packed decimal byte; it and the carry flag make up the exact decimal difference.
  pub daa_after_subtraction :
      let t = daa (alu 2 v r) in
      let u = daa (alu 3 v r) in
      IsBcd t.a
      × IsBcd u.a
      × (bcd_value t.a + bcd_value v ≡ bcd_value r.a + 100 * carry_in t)
      × (bcd_value u.a + bcd_value v + carry_in r ≡ bcd_value r.a + 100 * carry_in u)
  daa_after_subtraction =
      let diffs = alu_subtractions v r (omega arith) (omega arith) in
      let t = daa-IsDifference r.a v 0 (alu 2 v r) a_bcd v_bcd (omega arith) diffs.0 in
      let u = daa-IsDifference r.a v (carry_in r) (alu 3 v r) a_bcd v_bcd (carry_in-le r) diffs.1 in
      (t.0, u.0, omega (arith, t.1), u.1)

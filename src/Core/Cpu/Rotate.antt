-- ===== src/Core/Cpu/Rotate.antt =====
-- `execute_rot` of libz80e/src/core/cpu.c: rotations and shifts of a register or of memory.
use z80e.Common.{
  ℕ, Bool, false, ◌&&◌, [], ◌∷◌, bit_and, ◌|||◌, ltb, ◌==◌, if◌then◌else◌, switch, to_ℕ, to_bool,
  u8, u16, int_sub, ◌<<<◌, ◌>>>◌,
}
use z80e.Core.Flags.{flag_c, flag_zero, flag_sign_8, flag_parity, flag_undef_8}
use z80e.Core.Registers.{flags_c}
use z80e.Core.Cpu.{Board, Exec, pure, ◌>>=◌, ◌>>◌, get_registers, modify_registers}
use z80e.Core.Cpu.Operands.{read_r, write_r}

-- The byte after rotation `y`, from the byte `r` and the carry before.
unfoldable pub rotated : ℕ → Bool → ℕ → ℕ
rotated y carry r =
    let old_7 = to_ℕ (ltb 0 (bit_and r 0x80)) in
    let old_0 = to_ℕ (ltb 0 (bit_and r 1)) in
    let old_c = to_ℕ carry in
    switch y r (
      (u8 (r <<< 1) ||| old_7)
      ∷ (r >>> 1 ||| old_0 <<< 7)
      ∷ (u8 (r <<< 1) ||| old_c)
      ∷ (r >>> 1 ||| old_c <<< 7)
      ∷ u8 (r <<< 1)
      ∷ (r >>> 1 ||| old_7 <<< 7)
      ∷ (u8 (r <<< 1) ||| 1)
      ∷ (r >>> 1)
      ∷ [])

-- The bit that rotation `y` moves out of the byte: bit 7 to the left, bit 0 to the right.
unfoldable pub rotated_out : ℕ → ℕ → Bool
rotated_out y r =
    let old_7 = ltb 0 (bit_and r 0x80) in
    let old_0 = ltb 0 (bit_and r 1) in
    switch y false (old_7 ∷ old_0 ∷ old_7 ∷ old_0 ∷ old_7 ∷ old_0 ∷ old_7 ∷ old_0 ∷ [])

unfoldable pub rotated_flags : Bool → ℕ → ℕ
rotated_flags out r =
    flag_c out ||| flag_sign_8 r ||| flag_parity r ||| flag_undef_8 r ||| flag_zero (to_bool r)

module _ {M : Type 0} (board : Board M) where
  unfoldable pub execute_rot : ℕ → ℕ → Bool → Exec M (Unit {0})
  execute_rot y z switch_opcode_data = do
    r ← read_r board z
    (if z == 6 && switch_opcode_data
        then modify_registers (λ reg. record reg { pc = u16 (int_sub reg.pc 1) })
        else pure tt)
    reg ← get_registers
    let new = rotated y (flags_c reg) r
    let out = rotated_out y r
    write_r board z new
    modify_registers (λ reg'. record reg' { f = rotated_flags out new })

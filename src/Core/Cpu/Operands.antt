-- ===== src/Core/Cpu/Operands.antt =====
-- The operand accessors of libz80e/src/core/cpu.c: `HorIHr` to `read_cc`. A prefix of 0xDD or
-- 0xFD in the high byte of `prefix` puts `IX` or `IY` in place of `HL`.
use z80e.Common.{
  ℕ, ◌+◌, Bool, false, not, ◌||◌, [], ◌∷◌, bit_and, ◌==◌, if◌then◌else◌, switch, u16, u8, ◌>>>◌,
}
use z80e.Core.Registers.{
  Registers, bc, de, hl, ix, iy, af, set_bc, set_de, set_hl, set_ix, set_iy, set_af, flags_c,
  flags_pv, flags_z, flags_s,
}
use z80e.Core.Cpu.{
  Board, Exec, pure, ◌>>=◌, ◌>>◌, get_registers, modify_registers, get_cpu, add_cycles, set_prefix,
  cpu_read_byte, cpu_write_byte, read_d,
}

-- The test `prefix >> 8 == 0xDD`, else `== 0xFD`, else neither.
unfoldable pub by_prefix {ℓ} : {A : Type ℓ} → ℕ → A → A → A → A
by_prefix prefix on_ix on_iy on_hl =
    if prefix >>> 8 == 0xdd then on_ix else (if prefix >>> 8 == 0xfd then on_iy else on_hl)

module _ {M : Type 0} (board : Board M) where
  unfoldable pub h_or_ih_r : Exec M ℕ
  h_or_ih_r = do
    cpu ← get_cpu
    let reg = cpu.registers
    pure (by_prefix cpu.prefix reg.ixh reg.iyh reg.h)

  unfoldable pub h_or_ih_w : ℕ → Exec M ℕ
  h_or_ih_w value = do
    cpu ← get_cpu
    modify_registers (λ reg.
        by_prefix cpu.prefix (record reg { ixh = u8 value }) (record reg { iyh = u8 value })
          (record reg { h = u8 value }))
    pure (u8 value)

  unfoldable pub l_or_il_r : Exec M ℕ
  l_or_il_r = do
    cpu ← get_cpu
    let reg = cpu.registers
    pure (by_prefix cpu.prefix reg.ixl reg.iyl reg.l)

  unfoldable pub l_or_il_w : ℕ → Exec M ℕ
  l_or_il_w value = do
    cpu ← get_cpu
    modify_registers (λ reg.
        by_prefix cpu.prefix (record reg { ixl = u8 value }) (record reg { iyl = u8 value })
          (record reg { l = u8 value }))
    pure (u8 value)

  unfoldable pub hl_or_i_r : Exec M ℕ
  hl_or_i_r = do
    cpu ← get_cpu
    let reg = cpu.registers
    pure (by_prefix cpu.prefix (ix reg) (iy reg) (hl reg))

  unfoldable pub hl_or_i_w : ℕ → Exec M ℕ
  hl_or_i_w value = do
    cpu ← get_cpu
    modify_registers
        (λ reg. by_prefix cpu.prefix (set_ix value reg) (set_iy value reg) (set_hl value reg))
    pure (u16 value)

  -- `WZ = base + d`, at which an indexed operand lies.
  unfoldable pub index_address : ℕ → Exec M ℕ
  index_address base = do
    d ← read_d board
    modify_registers (λ reg. record reg { wz = u16 (base + d) })
    pure (u16 (base + d))

  -- The displacement is read while the prefix is `IX` or `IY`; `extra` is what that costs.
  unfoldable pub indexed_read : ℕ → Exec M ℕ
  indexed_read extra = do
    cpu ← get_cpu
    by_prefix cpu.prefix
        (do
          add_cycles extra
          address ← index_address (ix cpu.registers)
          cpu_read_byte board address)
        (do
          add_cycles extra
          address ← index_address (iy cpu.registers)
          cpu_read_byte board address)
        (cpu_read_byte board (hl cpu.registers))

  unfoldable pub indexed_write : ℕ → ℕ → Exec M (Unit {0})
  indexed_write extra value = do
    cpu ← get_cpu
    by_prefix cpu.prefix
        (do
          add_cycles extra
          address ← index_address (ix cpu.registers)
          cpu_write_byte board address value)
        (do
          add_cycles extra
          address ← index_address (iy cpu.registers)
          cpu_write_byte board address value)
        (cpu_write_byte board (hl cpu.registers) value)

  unfoldable pub read_r : ℕ → Exec M ℕ
  read_r i = switch i (pure 0) (
      (do reg ← get_registers; pure reg.b)
      ∷ (do reg ← get_registers; pure reg.c)
      ∷ (do reg ← get_registers; pure reg.d)
      ∷ (do reg ← get_registers; pure reg.e)
      ∷ h_or_ih_r
      ∷ l_or_il_r
      ∷ (do add_cycles 3; indexed_read 8)
      ∷ (do reg ← get_registers; pure reg.a)
      ∷ [])

  unfoldable pub write_r : ℕ → ℕ → Exec M ℕ
  write_r i value = switch i (pure 0) (
      (do modify_registers (λ reg. record reg { b = u8 value }); pure (u8 value))
      ∷ (do modify_registers (λ reg. record reg { c = u8 value }); pure (u8 value))
      ∷ (do modify_registers (λ reg. record reg { d = u8 value }); pure (u8 value))
      ∷ (do modify_registers (λ reg. record reg { e = u8 value }); pure (u8 value))
      ∷ h_or_ih_w value
      ∷ l_or_il_w value
      ∷ (do add_cycles 3; indexed_write 4 (u8 value); pure (u8 value))
      ∷ (do modify_registers (λ reg. record reg { a = u8 value }); pure (u8 value))
      ∷ [])

  -- Only one side of a load may be indexed: the other reads or writes `H` and `L` themselves.
  unfoldable pub read_write_r : ℕ → ℕ → Exec M ℕ
  read_write_r read write =
      if write == 6 || read == 6
      then (do
        cpu ← get_cpu
        let old_prefix = cpu.prefix
        (if write == 6 then set_prefix (bit_and old_prefix 0xff) else pure tt)
        r ← read_r read
        set_prefix old_prefix
        (if read == 6 then set_prefix (bit_and old_prefix 0xff) else pure tt)
        write_r write r)
      else (do r ← read_r read; write_r write r)

  unfoldable pub read_rp : ℕ → Exec M ℕ
  read_rp i = switch i (pure 0) (
      (do reg ← get_registers; pure (bc reg))
      ∷ (do reg ← get_registers; pure (de reg))
      ∷ hl_or_i_r
      ∷ (do reg ← get_registers; pure reg.sp)
      ∷ [])

  unfoldable pub write_rp : ℕ → ℕ → Exec M ℕ
  write_rp i value = switch i (pure 0) (
      (do modify_registers (set_bc value); pure (u16 value))
      ∷ (do modify_registers (set_de value); pure (u16 value))
      ∷ hl_or_i_w value
      ∷ (do modify_registers (λ reg. record reg { sp = u16 value }); pure (u16 value))
      ∷ [])

  unfoldable pub read_rp2 : ℕ → Exec M ℕ
  read_rp2 i = switch i (pure 0) (
      (do reg ← get_registers; pure (bc reg))
      ∷ (do reg ← get_registers; pure (de reg))
      ∷ hl_or_i_r
      ∷ (do reg ← get_registers; pure (af reg))
      ∷ [])

  unfoldable pub write_rp2 : ℕ → ℕ → Exec M ℕ
  write_rp2 i value = switch i (pure 0) (
      (do modify_registers (set_bc value); pure (u16 value))
      ∷ (do modify_registers (set_de value); pure (u16 value))
      ∷ hl_or_i_w value
      ∷ (do modify_registers (set_af value); pure (u16 value))
      ∷ [])

-- The condition `cc` of a jump, call or return.
unfoldable pub read_cc : ℕ → Registers → Bool
read_cc i reg = switch i false (
    not (flags_z reg)
    ∷ flags_z reg
    ∷ not (flags_c reg)
    ∷ flags_c reg
    ∷ not (flags_pv reg)
    ∷ flags_pv reg
    ∷ not (flags_s reg)
    ∷ flags_s reg
    ∷ [])

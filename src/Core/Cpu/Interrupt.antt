-- ===== src/Core/Cpu/Interrupt.antt =====
-- `execute_im` and `handle_interrupt` of libz80e/src/core/cpu.c.
use z80e.Common.{ℕ, ◌+◌, ◌*◌, false, [], ◌∷◌, switch, u16}
use z80e.Core.Cpu.{
  Board, Exec, pure, ◌>>=◌, ◌>>◌, modify_registers, get_cpu, modify_cpu, add_cycles, push,
}

unfoldable pub execute_im : {M : Type 0} → ℕ → Exec M (Unit {0})
execute_im y =
    modify_cpu
      (λ cpu. record cpu { int_mode = switch y cpu.int_mode (0 ∷ 0 ∷ 1 ∷ 2 ∷ 0 ∷ 0 ∷ 1 ∷ 2 ∷ []) })

module _ {M : Type 0} (board : Board M) where
  -- `IFF1 = 0; IFF2 = 0`.
  unfoldable pub disable_interrupts : Exec M (Unit {0})
  disable_interrupts = modify_cpu (λ cpu. record cpu { iff1 = false; iff2 = false })

  -- Mode 0 is not supported: the call only warns. Mode 2 jumps to the address `I * 256 + bus`.
  unfoldable pub handle_interrupt : Exec M (Unit {0})
  handle_interrupt = do
    cpu ← get_cpu
    switch cpu.int_mode (pure tt) (
        pure tt
        ∷ (do
          add_cycles 13
          push board cpu.registers.pc
          modify_registers (λ reg. record reg { pc = 0x38 })
          disable_interrupts)
        ∷ (do
          add_cycles 19
          push board cpu.registers.pc
          modify_registers (λ reg. record reg { pc = u16 (reg.i * 256 + cpu.bus) })
          disable_interrupts)
        ∷ [])

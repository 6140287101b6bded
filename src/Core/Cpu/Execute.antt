-- ===== src/Core/Cpu/Execute.antt =====
-- The loop of `cpu_execute` in libz80e/src/core/cpu.c. One round is `step`; the loop runs on fuel.
pub mod Rounds
pub mod Interrupts
pub mod Prefixes
use z80e.Common.{
  ℕ, zero, suc, ◌+◌, ◌-◌, ◌*◌, ◌/◌, ◌%◌, ◌^◌, Bool, true, false, not, ◌&&◌, ◌||◌, List, [], ◌∷◌,
  Option, none, some, bit_and, ◌|||◌, ltb, ◌==◌, ◌!=◌, if◌then◌else◌, switch, to_bool, u8, u16,
  ◌>>>◌,
}
use z80e.Core.Registers.{Registers}
use z80e.Core.Cpu.{
  Board, Cpu, Context, Exec, pure, ◌>>=◌, ◌>>◌, get_registers, modify_registers, get_cpu,
  modify_cpu, add_cycles, set_prefix, set_opcode, x_of, cpu_read_byte,
}
use z80e.Core.Cpu.Interrupt.{handle_interrupt}
use z80e.Core.Cpu.Instructions.Cb.{execute_cb}
use z80e.Core.Cpu.Instructions.Ed.{execute_ed}
use z80e.Core.Cpu.Instructions.X0.{execute_x0}
use z80e.Core.Cpu.Instructions.X3.{execute_x1, execute_x2, execute_x3}

-- `R` counts in its low seven bits.
unfoldable pub next_r : ℕ → ℕ
next_r old_r = bit_and (u8 (old_r + 1)) 0x7f ||| bit_and old_r 0x80

module _ {M : Type 0} (board : Board M) where
  -- An interrupt is taken when it is enabled, no prefix is pending and no `EI` was just before.
  unfoldable pub takes_interrupt : Cpu M → Bool
  takes_interrupt cpu =
      cpu.iff2 && not (to_bool cpu.prefix) && not cpu.iff_wait && board.interrupt cpu.memory

  unfoldable pub clears_wait : Cpu M → Bool
  clears_wait cpu = cpu.iff2 && not (to_bool cpu.prefix) && cpu.iff_wait

  unfoldable pub execute_opcode : ℕ → Exec M Bool
  execute_opcode opcode = switch (x_of opcode) (pure true) (
      (do execute_x0 board opcode; pure true)
      ∷ (do execute_x1 board opcode; pure true)
      ∷ (do execute_x2 board opcode; pure true)
      ∷ execute_x3 board opcode
      ∷ [])

  -- The instruction that the prefix selects; the result is `reset_prefix`.
  unfoldable pub dispatch : ℕ → ℕ → Exec M Bool
  dispatch prefix opcode =
      if bit_and prefix 0xff == 0xcb
      then (do execute_cb board; pure true)
      else (if prefix >>> 8 == 0xed
          then (do execute_ed board opcode; pure true)
          else execute_opcode opcode)

  -- Fetch, count `R`, run, reset the prefix.
  unfoldable pub run_instruction : Exec M (Unit {0})
  run_instruction = do
    cpu ← get_cpu
    modify_registers (λ reg. record reg { pc = u16 (reg.pc + 1) })
    opcode ← cpu_read_byte board cpu.registers.pc
    set_opcode opcode
    modify_registers (λ reg. record reg { r = next_r reg.r })
    reset_prefix ← dispatch cpu.prefix opcode
    (if reset_prefix then set_prefix 0 else pure tt)

  unfoldable pub step_context : Exec M (Unit {0})
  step_context = do
    cpu ← get_cpu
    (if clears_wait cpu then modify_cpu (λ c. record c { iff_wait = false }) else pure tt)
    (if takes_interrupt cpu
        then (do modify_cpu (λ c. record c { halted = false }); handle_interrupt board)
        else (if cpu.halted then add_cycles 4 else run_instruction))

  -- One round: the cycles that it uses up, at least one, and the processor after it.
  unfoldable pub step : Cpu M → ℕ × Cpu M
  step cpu =
      let s = (step_context (record { cycles = 0; opcode = 0; cpu = cpu })).1 in
      (if s.cycles == 0 then 1 else s.cycles, s.cpu)

  -- `cpu_execute` on `debt` cycles already overdrawn and `cycles` left: the overdraft and the
  -- processor when the loop ends, or nothing when the fuel ran out.
  unfoldable pub cpu_execute : ℕ → ℕ → ℕ → Cpu M → Option (ℕ × Cpu M)
  cpu_execute zero cycles debt cpu = none
  cpu_execute (suc fuel) cycles debt cpu =
      let used = (step cpu).0 in
      let rest = cpu_execute fuel (cycles - used) (debt + (used - cycles)) (step cpu).1 in
      if ltb 0 cycles || cpu.prefix != 0 then rest else some (debt, cpu)

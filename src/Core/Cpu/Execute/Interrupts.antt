-- ===== src/Core/Cpu/Execute/Interrupts.antt =====
-- When `cpu_execute` takes an interrupt, and what it does then.
use z80e.Common.{
  ℕ, ◌+◌, ◌*◌, ◌%◌, ◌^◌, ◌<◌, ◌≡◌, ◌≢◌, refl, arith, true, false, ◌⊎◌, inl, inr, if◌then◌else◌,
  ◌==◌, u8, u16, int_sub, ◌>>>◌, bit_and, bit_and-low, bit_or, bit_or-join,
}
use z80e.Core.Code.{cpu_code}
use z80e.Core.Cpu.{exec_code, Board, Cpu, Context, push, pop}
use z80e.Core.Cpu.Execute.{step, step_context, run_instruction, takes_interrupt, clears_wait}

module _ {M : Type 0} (board : Board M) where
  -- The memory after the program counter is pushed.
  unfoldable pub pushed : Cpu M → M
  pushed cpu =
      let top = int_sub cpu.registers.sp 2 in
      board.write_byte (board.write_byte cpu.memory (u16 top) (u8 (bit_and cpu.registers.pc 0xff)))
        (u16 (top + 1)) (u8 (cpu.registers.pc >>> 8))

  -- With interrupts enabled, no prefix pending, no `EI` just before, the pin set and mode 1 or 2:
  -- a round pushes the program counter, jumps to 0x38 in mode 1 and to 256 times `I` plus the bus
  -- in mode 2, disables interrupts, ends a `HALT`, and uses 13 or 19 cycles.
  pub step-interrupt :
      (cpu : Cpu M)
      → cpu.iff2 ≡ true
      → cpu.prefix ≡ 0
      → cpu.iff_wait ≡ false
      → board.interrupt cpu.memory ≡ true
      → (cpu.int_mode ≡ 1) ⊎ (cpu.int_mode ≡ 2)
      → step board cpu ≡ (
        (if cpu.int_mode == 1 then 13 else 19),
        record cpu {
          registers = record (cpu.registers) {
            sp = u16 (int_sub cpu.registers.sp 2);
            pc = if cpu.int_mode == 1 then 0x38 else u16 (cpu.registers.i * 256 + cpu.bus);
          };
          iff1 = false;
          iff2 = false;
          halted = false;
          memory = pushed cpu;
        },
      )
  unfolding cpu_code pushed
  step-interrupt cpu enabled clear wait pin (inl mode) = rw (enabled, clear, wait, pin, mode) refl
  step-interrupt cpu enabled clear wait pin (inr mode) = rw (enabled, clear, wait, pin, mode) refl

  -- In the round after `EI`, with no prefix pending, the pin is not looked at: the instruction
  -- runs, and the wait is over.
  pub step_context-iff_wait :
      (s : Context M)
      → s.cpu.iff2 ≡ true
      → s.cpu.prefix ≡ 0
      → s.cpu.iff_wait ≡ true
      → s.cpu.halted ≡ false
      → step_context board s
        ≡ run_instruction board (record s { cpu = record (s.cpu) { iff_wait = false } })
  unfolding exec_code step_context takes_interrupt clears_wait
  step_context-iff_wait s enabled clear wait running = rw (enabled, clear, wait, running) refl

  word_join :
      (value : ℕ)
      → value < 2 ^ 16
      → bit_or (value % 2 ^ 8 % 2 ^ 8 % 2 ^ 8) (u8 (value >>> 8) % 2 ^ 8 * 2 ^ 8) ≡ value
  word_join value small =
      rw (bit_or-join 8 (value % 2 ^ 8 % 2 ^ 8 % 2 ^ 8) (u8 (value >>> 8) % 2 ^ 8) (omega arith))
        (omega arith)

  fits_back : (sp : ℕ) → sp < 2 ^ 16 → u16 (u16 (int_sub sp 2) + 2) ≡ sp
  fits_back sp fits = omega arith

  -- In memory that reads back what was written and that reads do not change: `pop` after `push`
  -- gives the word pushed, and the registers as they were.
  pub pop-push :
      ((m : M) (a v : ℕ) → board.read_byte (board.write_byte m a v) a ≡ (v, board.write_byte m a v))
      → ((m : M) (a b v : ℕ)
          → a ≢ b
          → board.read_byte (board.write_byte m a v) b
            ≡ ((board.read_byte m b).0, board.write_byte m a v))
      → (s : Context M) (value : ℕ) → value < 2 ^ 16
      → s.cpu.registers.sp < 2 ^ 16
      → ((pop board (push board value s).1).0 ≡ value)
        × ((pop board (push board value s).1).1.cpu.registers ≡ s.cpu.registers)
  unfolding cpu_code
  pop-push same other s value small fits =
      let top = u16 (int_sub s.cpu.registers.sp 2) in
      let next = u16 (int_sub s.cpu.registers.sp 2 + 1) in
      let m₁ = board.write_byte s.cpu.memory top (u8 (bit_and value 255)) in
      let at_top : u16 (u16 (int_sub s.cpu.registers.sp 2)) ≡ top = omega arith in
      let at_next : u16 (u16 (int_sub s.cpu.registers.sp 2) + 1) ≡ next = omega arith in
      (
        rw
            (
              at_next,
              at_top,
              other m₁ next top (u8 (value >>> 8)) (omega arith),
              same s.cpu.memory top (u8 (bit_and value 255)),
              same m₁ next (u8 (value >>> 8)),
              bit_and-low 8 value,
            )
            (word_join value small),
        rw (fits_back s.cpu.registers.sp fits) refl,
      )

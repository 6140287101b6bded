-- ===== src/Core/Tests/Interrupts.antt =====
-- The theorems on interrupts, the stack and prefixes at concrete inputs.
use z80e.Common.{ℕ, ◌≡◌, ◌≢◌, refl, ap, arith, true, false, inl, [], none, ◌==◌, if◌then◌else◌}
use z80e.Core.Tests.{flat, boot, some_registers}
use z80e.Core.Cpu.{Board, Cpu, Context, push, pop}
use z80e.Core.Cpu.Execute.{cpu_execute, step, step_context, run_instruction}
use z80e.Core.Cpu.Execute.Interrupts.{pushed, step-interrupt, step_context-iff_wait, pop-push}
use z80e.Core.Cpu.Execute.Prefixes.{cpu_execute-only_prefixes}

-- The pin is set all the time.
abbrev pinned : Board (ℕ → ℕ)
pinned = record flat { interrupt = λ _. true }

abbrev waiting : Cpu (ℕ → ℕ)
waiting = record (boot []) {
  registers = some_registers;
  iff1 = true;
  iff2 = true;
  int_mode = 1;
  halted = true;
}

step-interrupt_case : step pinned waiting ≡ (
  13,
  record waiting {
    registers = record some_registers { sp = 0x7ffe; pc = 0x38 };
    iff1 = false;
    iff2 = false;
    halted = false;
    memory = pushed pinned waiting;
  },
)
step-interrupt_case = step-interrupt pinned waiting refl refl refl refl (inl refl)

abbrev just_enabled : Context (ℕ → ℕ)
just_enabled = record {
  cycles = 0;
  opcode = 0;
  cpu = record waiting { halted = false; iff_wait = true };
}

step_context-iff_wait_case :
    step_context pinned just_enabled
    ≡ run_instruction pinned (record {
      cycles = 0;
      opcode = 0;
      cpu = record waiting { halted = false; iff_wait = false };
    })
step_context-iff_wait_case = step_context-iff_wait pinned just_enabled refl refl refl refl

flat_same :
    (m : ℕ → ℕ) (a v : ℕ) → flat.read_byte (flat.write_byte m a v) a ≡ (v, flat.write_byte m a v)
flat_same m a v =
    let found : (if a == a then v else m a) ≡ v = ground arith in
    ap (λ x. (x, flat.write_byte m a v)) found

flat_other :
    (m : ℕ → ℕ) (a b v : ℕ)
    → a ≢ b
    → flat.read_byte (flat.write_byte m a v) b ≡ ((flat.read_byte m b).0, flat.write_byte m a v)
flat_other m a b v ne =
    let kept : (if b == a then v else m b) ≡ m b = ground arith in
    ap (λ x. (x, flat.write_byte m a v)) kept

pop-push_example :
    ((pop flat (push flat 0xbeef just_enabled).1).0 ≡ 0xbeef)
    × ((pop flat (push flat 0xbeef just_enabled).1).1.cpu.registers ≡ some_registers)
pop-push_example =
    pop-push flat flat_same flat_other just_enabled 0xbeef (omega arith) (omega arith)

-- Every address reads as 0xdd.
abbrev prefixes_only : Board (ℕ → ℕ)
prefixes_only = record flat { read_byte = λ m _. (0xdd, m) }

cpu_execute-only_prefixes_example :
    cpu_execute prefixes_only 1000 0 0 (record (boot []) { prefix = 0xdd00 }) ≡ none
cpu_execute-only_prefixes_example =
    cpu_execute-only_prefixes prefixes_only (λ m a. refl) 1000 0 0
      (record (boot []) { prefix = 0xdd00 }) refl refl

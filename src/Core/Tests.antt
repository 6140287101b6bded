-- ===== src/Core/Tests.antt =====
-- Small programs, and the theorems at concrete inputs.
mod Interrupts
mod Kept
use z80e.Common.{
  ◌||◌, ◌&&◌, ◌<◌, ◌≤◌, ◌%◌, ◌*◌, to_ℕ, arith, ℕ, ◌+◌, ◌≡◌, refl, Bool, true, false, List, [], ◌∷◌,
  Option, none, some, ◌==◌, if◌then◌else◌, get_or, u8,
}
use mathlib.Core.Bool.{xor}
use z80e.Core.Code.{cpu_code}
use z80e.Core.Registers.{Registers}
use z80e.Core.Cpu.{Board, Device, Cpu, Context}
use z80e.Core.Registers.{
  ex_af_af, ex_de_hl, exx, flags_c, flags_n, flags_pv, flags_h, flags_z, flags_s, flags_3, flags_5,
}
use z80e.Core.Registers.Laws.{exchanges_undo}
use z80e.Core.Flags.{parity}
use z80e.Core.Cpu.Alu.{alu, daa}
use z80e.Core.Cpu.Alu.Arith.{IsSum, IsDifference, alu_additions, alu_subtractions, alu_comparison}
use z80e.Core.Cpu.Alu.Decimal.{
  IsBcd, bcd_value, carry_in, daa_after_addition, daa_after_subtraction,
}
use z80e.Core.Cpu.Alu.Logic.{IsLogical, ones, parity-ones, alu_logic}
use z80e.Core.Cpu.Execute.{cpu_execute, step, step_context, run_instruction}
use z80e.Core.Cpu.Execute.Rounds.{rounds, step-RegistersFit, cpu_execute_returns}
use z80e.Core.Cpu.Execute.Interrupts.{pushed, step-interrupt, step_context-iff_wait, pop-push}
use z80e.Core.Cpu.Execute.Prefixes.{cpu_execute-only_prefixes}
use z80e.Core.Cpu.Invariant.Pure.{RegistersFit}

abbrev zero_registers : Registers
zero_registers = record {
  a = 0;
  f = 0;
  b = 0;
  c = 0;
  d = 0;
  e = 0;
  h = 0;
  l = 0;
  af' = 0;
  bc' = 0;
  de' = 0;
  hl' = 0;
  pc = 0;
  sp = 0;
  ixh = 0;
  ixl = 0;
  iyh = 0;
  iyl = 0;
  i = 0;
  r = 0;
  wz = 0;
}

abbrev no_device : Device (ℕ → ℕ)
no_device = record { read_in = none; write_out = none }

-- A flat memory of 64 KiB with no devices.
abbrev flat : Board (ℕ → ℕ)
flat = record {
  read_byte = λ m address. (m address, m);
  write_byte = λ m address v j. if j == address then v else m j;
  devices = λ _. no_device;
  hook_on_port_in = λ m _ v. (v, m);
  hook_on_port_out = λ m _ v. (v, m);
  interrupt = λ _. false;
}

abbrev boot : List ℕ → Cpu (ℕ → ℕ)
boot program = record {
  registers = zero_registers;
  iff1 = false;
  iff2 = false;
  int_mode = 0;
  iff_wait = false;
  halted = false;
  bus = 0;
  prefix = 0;
  memory = λ j. get_or program j 0;
}

-- LD A, 5; ADD A, 7; DD LD (IX + 3), 9; LD HL, 3; LD B, (HL)
abbrev after : Option (ℕ × Cpu (ℕ → ℕ)) → ℕ × ℕ × ℕ
after none = (0, 0, 0)
after (some (debt, cpu)) = (debt, cpu.registers.a, cpu.registers.b)

small_program :
    after (
      cpu_execute flat 10 46 0
        (boot (0x3e ∷ 5 ∷ 0xc6 ∷ 7 ∷ 0xdd ∷ 0x36 ∷ 100 ∷ 9 ∷ 0x21 ∷ 100 ∷ 0 ∷ 0x46 ∷ [])))
    ≡ (0, 12, 9)
unfolding cpu_code
small_program = refl

abbrev some_registers : Registers
some_registers = record zero_registers { a = 0x58; f = 1; sp = 0x8000; pc = 0x1234; b = 7; h = 9 }

some_registers-RegistersFit : RegistersFit some_registers
some_registers-RegistersFit = record {
  a = omega arith;
  f = omega arith;
  b = omega arith;
  c = omega arith;
  d = omega arith;
  e = omega arith;
  h = omega arith;
  l = omega arith;
  af' = omega arith;
  bc' = omega arith;
  de' = omega arith;
  hl' = omega arith;
  pc = omega arith;
  sp = omega arith;
  ixh = omega arith;
  ixl = omega arith;
  iyh = omega arith;
  iyl = omega arith;
  i = omega arith;
  r = omega arith;
  wz = omega arith;
}

abbrev booted : Cpu (ℕ → ℕ)
booted = record (boot (0xc6 ∷ 7 ∷ [])) { registers = record some_registers { pc = 0 } }

step-RegistersFit_case :
    RegistersFit (step flat (record (boot []) { registers = some_registers })).1.registers
    × (1 ≤ (step flat (record (boot []) { registers = some_registers })).0)
step-RegistersFit_case =
    step-RegistersFit flat (record (boot []) { registers = some_registers })
      some_registers-RegistersFit

four_rounds : (rounds flat 4 (boot (0x3e ∷ 5 ∷ []))).prefix ≡ 0
unfolding cpu_code rounds
four_rounds = refl

cpu_execute_returns_example :
    (k : ℕ) × (over : ℕ) × (cpu_execute flat 5 4 0 (boot (0x3e ∷ 5 ∷ []))
      ≡ some (over, rounds flat k (boot (0x3e ∷ 5 ∷ []))))
    × ((rounds flat k (boot (0x3e ∷ 5 ∷ []))).prefix ≡ 0)
cpu_execute_returns_example =
    cpu_execute_returns flat 4 4 0 (boot (0x3e ∷ 5 ∷ [])) (omega arith) four_rounds

alu_additions_example :
    IsSum 0x58 0xc9 0 (alu 0 0xc9 some_registers)
    × IsSum 0x58 0xc9 (to_ℕ (flags_c some_registers)) (alu 1 0xc9 some_registers)
alu_additions_example = alu_additions 0xc9 some_registers (omega arith) (omega arith)

alu_subtractions_example :
    IsDifference 0x58 0xc9 0 (alu 2 0xc9 some_registers)
    × IsDifference 0x58 0xc9 (to_ℕ (flags_c some_registers)) (alu 3 0xc9 some_registers)
alu_subtractions_example = alu_subtractions 0xc9 some_registers (omega arith) (omega arith)

alu_comparison_example :
    (record (alu 7 0xc9 some_registers) { f = 1 } ≡ some_registers)
    × (flags_c (alu 7 0xc9 some_registers) ≡ flags_c (alu 2 0xc9 some_registers))
    × (flags_n (alu 7 0xc9 some_registers) ≡ flags_n (alu 2 0xc9 some_registers))
    × (flags_pv (alu 7 0xc9 some_registers) ≡ flags_pv (alu 2 0xc9 some_registers))
    × (flags_h (alu 7 0xc9 some_registers) ≡ flags_h (alu 2 0xc9 some_registers))
    × (flags_z (alu 7 0xc9 some_registers) ≡ flags_z (alu 2 0xc9 some_registers))
    × (flags_s (alu 7 0xc9 some_registers) ≡ flags_s (alu 2 0xc9 some_registers))
    × (flags_3 (alu 7 0xc9 some_registers) ≡ true)
    × (flags_5 (alu 7 0xc9 some_registers) ≡ false)
alu_comparison_example = alu_comparison 0xc9 some_registers

alu_logic_example :
    IsLogical ◌&&◌ true 0x58 0xc9 (alu 4 0xc9 some_registers)
    × IsLogical xor false 0x58 0xc9 (alu 5 0xc9 some_registers)
    × IsLogical ◌||◌ false 0x58 0xc9 (alu 6 0xc9 some_registers)
alu_logic_example = alu_logic 0xc9 some_registers (omega arith) (omega arith)

parity-ones_case : parity 0xb5 ≡ ones 8 0xb5 % 2
parity-ones_case = parity-ones 0xb5 (omega arith)

daa_after_addition_example :
    IsBcd (daa (alu 0 0x67 some_registers)).a
    × IsBcd (daa (alu 1 0x67 some_registers)).a
    × (bcd_value (daa (alu 0 0x67 some_registers)).a
          + 100 * carry_in (daa (alu 0 0x67 some_registers))
        ≡ 58 + 67)
    × (bcd_value (daa (alu 1 0x67 some_registers)).a
          + 100 * carry_in (daa (alu 1 0x67 some_registers))
        ≡ 58 + 67 + carry_in some_registers)
daa_after_addition_example =
    daa_after_addition 0x67 some_registers (omega arith, omega arith) (omega arith, omega arith)

exchanges_undo_case :
    (ex_af_af (ex_af_af some_registers) ≡ some_registers)
    × (ex_de_hl (ex_de_hl some_registers) ≡ some_registers)
    × (exx (exx some_registers) ≡ some_registers)
exchanges_undo_case = exchanges_undo some_registers some_registers-RegistersFit

daa_after_subtraction_example :
    IsBcd (daa (alu 2 0x67 some_registers)).a
    × IsBcd (daa (alu 3 0x67 some_registers)).a
    × (bcd_value (daa (alu 2 0x67 some_registers)).a + 67
        ≡ 58 + 100 * carry_in (daa (alu 2 0x67 some_registers)))
    × (bcd_value (daa (alu 3 0x67 some_registers)).a + 67 + carry_in some_registers
        ≡ 58 + 100 * carry_in (daa (alu 3 0x67 some_registers)))
daa_after_subtraction_example =
    daa_after_subtraction 0x67 some_registers (omega arith, omega arith) (omega arith, omega arith)

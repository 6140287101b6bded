-- ===== src/Core/Tests/Kept.antt =====
-- What a run keeps and the accesses by name, at concrete inputs.
use z80e.Common.{ℕ, ◌≡◌, refl, arith, true, [], ◌∷◌, some, ◌==◌, if◌then◌else◌, get_or, u8}
use z80e.Core.Code.{cpu_code}
use z80e.Core.Tests.{flat, some_registers, some_registers-RegistersFit, booted}
use z80e.Core.Cpu.{Board, Cpu}
use z80e.Core.Cpu.Execute.{cpu_execute}
use z80e.Core.Cpu.Execute.Rounds.{rounds, cpu_execute-IsKept}
use z80e.Core.Cpu.Invariant.{IsKept}
use z80e.Core.Cpu.Invariant.Pure.{RegistersFit}
use z80e.Core.Cpu.Named.{
  reg_bc, reg_ixh, register_mask, cpu_read_register_word, cpu_read_register_byte,
  cpu_write_register_word, cpu_write_register_byte,
}
use z80e.Core.Cpu.Named.Laws.{read_register_word-write, read_register_byte-write}
use z80e.Hooks.{RegisterHook, hook_on_register}

-- A memory whose first byte cannot be written.
abbrev guarded : Board (ℕ → ℕ)
guarded = record flat {
  write_byte = λ m address v j. if j == address then (if j == 0 then m j else v) else m j;
}

First : (ℕ → ℕ) → Type 0
First m = m 0 ≡ 0xc6

guarded-IsKept : IsKept First guarded
unfolding First
guarded-IsKept = record {
  read_byte = λ m address h. h;
  write_byte = λ m address value h. ground arith;
  port_in = λ port m e h. absurd (ground arith);
  port_out = λ port value m e h. absurd (ground arith);
  hook_on_port_in = λ m port value h. h;
  hook_on_port_out = λ m port value h. h;
}

-- LD (HL), A at the program counter.
abbrev storing : Cpu (ℕ → ℕ)
storing = record booted {
  registers = some_registers;
  memory = λ j. if j == 0x1234 then 0x77 else get_or (0xc6 ∷ []) j 0;
}

one_round : cpu_execute guarded 3 7 0 storing ≡ some (0, rounds guarded 1 storing)
unfolding cpu_code rounds
one_round = refl

storing-First : First storing.memory
unfolding First
storing-First = refl

cpu_execute-IsKept_case :
    RegistersFit (rounds guarded 1 storing).registers × First (rounds guarded 1 storing).memory
cpu_execute-IsKept_case =
    cpu_execute-IsKept guarded guarded-IsKept 3 7 0 storing some_registers-RegistersFit
      storing-First 0 (rounds guarded 1 storing) one_round

-- A hook on BC that keeps the low byte and counts.
abbrev low_only : RegisterHook ℕ
low_only = record { callback = λ w flags value. (u8 value, w); registers = 64; in_use = true }

read_register_word-write_example :
    (cpu_read_register_word {W = ℕ} [] 0
        (cpu_write_register_word (low_only ∷ []) 0 some_registers reg_bc 0x1234).1
        reg_bc
      ≡ hook_on_register {W = ℕ} [] 0
          (register_mask reg_bc)
          (cpu_write_register_word (low_only ∷ []) 0 some_registers reg_bc 0x1234).0)
    × RegistersFit (cpu_write_register_word (low_only ∷ []) 0 some_registers reg_bc 0x1234).1
read_register_word-write_example =
    read_register_word-write [] (low_only ∷ []) 0 0 some_registers reg_bc 0x1234 (omega arith)
      some_registers-RegistersFit

read_register_byte-write_case :
    ((cpu_read_register_byte {W = ℕ} [] 0
        (cpu_write_register_byte (low_only ∷ []) 0 some_registers reg_ixh 0x123).1
        reg_ixh).0
      ≡ u8
          (hook_on_register {W = ℕ} [] 0
            (register_mask reg_ixh)
            (cpu_write_register_byte (low_only ∷ []) 0 some_registers reg_ixh 0x123).0).0)
    × RegistersFit (cpu_write_register_byte (low_only ∷ []) 0 some_registers reg_ixh 0x123).1
read_register_byte-write_case =
    read_register_byte-write [] (low_only ∷ []) 0 0 some_registers reg_ixh 0x123
      some_registers-RegistersFit

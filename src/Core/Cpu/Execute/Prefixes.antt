-- ===== src/Core/Cpu/Execute/Prefixes.antt =====
-- A memory of prefix bytes only.
use z80e.Common.{ℕ, zero, suc, ◌≡◌, refl, arith, false, inl, inr, Bool-cases, none}
use z80e.Core.Code.{cpu_code}
use z80e.Core.Cpu.{Board, Cpu}
use z80e.Core.Cpu.Execute.{step, cpu_execute}
use z80e.Core.Cpu.Execute.Rounds.{rounds, cpu_execute_stuck}

module _ {M : Type 0} (board : Board M) where
  -- In the middle of a chain of 0xdd prefixes.
  unfoldable Chained : Cpu M → Type 0
  Chained cpu = (cpu.prefix ≡ 0xdd00) × (cpu.halted ≡ false)

  step-Chained :
      ((m : M) (a : ℕ) → board.read_byte m a ≡ (0xdd, m))
      → (cpu : Cpu M) → Chained cpu
      → Chained (step board cpu).1
  unfolding Chained cpu_code
  step-Chained only cpu (e, running) = elim (Bool-cases cpu.iff2) [
    | inl on ↦ rw (e, running, on, only) (refl, refl)
    | inr off ↦ rw (e, running, off, only) (refl, refl)
  ]

  rounds-Chained :
      ((m : M) (a : ℕ) → board.read_byte m a ≡ (0xdd, m))
      → (n : ℕ) (cpu : Cpu M) → Chained cpu
      → Chained (rounds board n cpu)
  unfolding rounds
  rounds-Chained only zero cpu h = h
  rounds-Chained only (suc n) cpu h =
      rounds-Chained only n (step board cpu).1 (step-Chained only cpu h)

  -- In a memory that reads as 0xdd at every address: once such a prefix is pending and the
  -- processor is not halted, `cpu_execute` returns for no number of cycles, none left included,
  -- however much fuel it has.
  pub cpu_execute-only_prefixes :
      ((m : M) (a : ℕ) → board.read_byte m a ≡ (0xdd, m))
      → (fuel cycles debt : ℕ) (cpu : Cpu M) → cpu.prefix ≡ 0xdd00
      → cpu.halted ≡ false
      → cpu_execute board fuel cycles debt cpu ≡ none
  unfolding Chained
  cpu_execute-only_prefixes only fuel cycles debt cpu e running =
      cpu_execute_stuck board fuel cycles debt cpu
        (λ n. let (is, _) = rounds-Chained only n cpu (e, running) in ground (arith, is))

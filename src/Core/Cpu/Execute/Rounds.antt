-- ===== src/Core/Cpu/Execute/Rounds.antt =====
-- What holds of every round of `cpu_execute`, of any number of rounds, and of the whole loop.
use z80e.Common.{
  ℕ, zero, suc, ◌+◌, ◌-◌, ◌≤◌, ◌≡◌, ◌≢◌, refl, ap, arith, ◌||◌, inl, inr, Bool-cases, none, some,
  ltb, ◌!=◌,
}
use z80e.Core.Cpu.{Board, Cpu}
use z80e.Core.Cpu.Execute.{step, cpu_execute}
use z80e.Core.Cpu.Invariant.Pure.{RegistersFit}
use z80e.Core.Cpu.Invariant.{IsKept}
use z80e.Core.Cpu.Invariant.Execute.{Keeps-step_context}

module _ {M : Type 0} (board : Board M) where
  -- The processor after `n` rounds.
  unfoldable pub rounds : ℕ → Cpu M → Cpu M
  rounds zero cpu = cpu
  rounds (suc n) cpu = rounds n (step board cpu).1

  nothing-IsKept : IsKept (λ _. Unit {0}) board
  nothing-IsKept = record {
    read_byte = λ m address h. tt;
    write_byte = λ m address value h. tt;
    port_in = λ port m e h. tt;
    port_out = λ port value m e h. tt;
    hook_on_port_in = λ m port value h. tt;
    hook_on_port_out = λ m port value h. tt;
  }

  -- From registers within their widths, a round of `cpu_execute` leaves every register within its
  -- width, whatever the memory and the devices return, and uses up at least one cycle.
  pub step-RegistersFit :
      (cpu : Cpu M)
      → RegistersFit cpu.registers
      → RegistersFit (step board cpu).1.registers × (1 ≤ (step board cpu).0)
  unfolding step
  step-RegistersFit cpu h = (
    ((Keeps-step_context board nothing-IsKept).keeps (record { cycles = 0; opcode = 0; cpu = cpu })
        (h, tt)).0,
    ground arith,
  )

  pub step_uses : (cpu : Cpu M) → 1 ≤ (step board cpu).0
  unfolding step
  step_uses cpu = ground arith

  -- With `n` at least the cycles asked for: if no prefix is pending after some number of rounds
  -- that is at least the cycles, fuel for one round more is enough, and the loop returns a
  -- processor that some number of rounds reaches, with no prefix pending.
  pub cpu_execute_returns :
      (n cycles debt : ℕ) (cpu : Cpu M)
      → cycles ≤ n
      → (rounds n cpu).prefix ≡ 0
      → (k : ℕ) × (over : ℕ) × (cpu_execute board (suc n) cycles debt cpu
          ≡ some (over, rounds k cpu))
        × ((rounds k cpu).prefix ≡ 0)
  unfolding cpu_execute rounds
  cpu_execute_returns zero cycles debt cpu h e = (0, debt, ground arith, e)
  cpu_execute_returns (suc n) cycles debt cpu h e =
      elim (Bool-cases (ltb 0 cycles || cpu.prefix != 0)) [
        | inl on ↦
            let used = (step board cpu).0 in
            let (k, over, returns, clear) =
              cpu_execute_returns n (cycles - used) (debt + (used - cycles)) (step board cpu).1
                (omega (arith, step_uses cpu)) e in
            (suc k, over, rw on returns, clear)
        | inr off ↦ (0, debt, rw off, ground arith)
      ]

  -- While a prefix is pending after every number of rounds, no fuel is enough.
  pub cpu_execute_stuck :
      (fuel cycles debt : ℕ) (cpu : Cpu M)
      → ((n : ℕ) → (rounds n cpu).prefix ≢ 0)
      → cpu_execute board fuel cycles debt cpu ≡ none
  unfolding cpu_execute rounds
  cpu_execute_stuck zero cycles debt cpu h = refl
  cpu_execute_stuck (suc fuel) cycles debt cpu h =
      let used = (step board cpu).0 in
      let ih =
        cpu_execute_stuck fuel (cycles - used) (debt + (used - cycles)) (step board cpu).1
          (λ n. h (suc n)) in
      ground (arith, h 0)

module _ {M : Type 0} {Q : M → Type 0} (board : Board M) (safe : IsKept Q board) where
  step-IsKept :
      (cpu : Cpu M)
      → RegistersFit cpu.registers
      → Q cpu.memory
      → RegistersFit (step board cpu).1.registers × Q (step board cpu).1.memory
  unfolding step
  step-IsKept cpu h q =
      (Keeps-step_context board safe).keeps (record { cycles = 0; opcode = 0; cpu = cpu }) (h, q)

  pub rounds-IsKept :
      (n : ℕ) (cpu : Cpu M)
      → RegistersFit cpu.registers
      → Q cpu.memory
      → RegistersFit (rounds board n cpu).registers × Q (rounds board n cpu).memory
  unfolding rounds
  rounds-IsKept zero cpu h q = (h, q)
  rounds-IsKept (suc n) cpu h q =
      let (h', q') = step-IsKept cpu h q in rounds-IsKept n (step board cpu).1 h' q'

  -- A property of the state outside that every access of the processor keeps, by memory, port and
  -- hook, is kept by every run of `cpu_execute` that returns, whatever program is in the memory;
  -- so are the widths of the registers.
  pub cpu_execute-IsKept :
      (fuel cycles debt : ℕ) (cpu : Cpu M)
      → RegistersFit cpu.registers
      → Q cpu.memory
      → (over : ℕ) (cpu' : Cpu M) → cpu_execute board fuel cycles debt cpu ≡ some (over, cpu')
      → RegistersFit cpu'.registers × Q cpu'.memory
  unfolding cpu_execute
  cpu_execute-IsKept zero cycles debt cpu h q over cpu' e = absurd (ground arith)
  cpu_execute-IsKept (suc fuel) cycles debt cpu h q over cpu' e =
      let used = (step board cpu).0 in
      let (h', q') = step-IsKept cpu h q in
      elim (Bool-cases (ltb 0 cycles || cpu.prefix != 0)) [
        | inl on ↦
            cpu_execute-IsKept fuel (cycles - used) (debt + (used - cycles)) (step board cpu).1 h'
              q' over cpu' (rw on at e)
        | inr off ↦
            let same : cpu ≡ cpu' = ap (λ o. elim o [ none ↦ cpu | some p ↦ p.1 ]) (rw off at e) in
            rw (← same) (h, q)
      ]

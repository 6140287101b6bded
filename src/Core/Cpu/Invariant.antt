-- ===== src/Core/Cpu/Invariant.antt =====
-- The register file stays within its widths, and the state outside keeps what every access to it
-- keeps: what that means, and the rules by which code that is put together from steps keeps both.
pub mod Pure
pub mod Effects
pub mod Operands
pub mod Blocks
pub mod Groups
pub mod Ed
pub mod X0
pub mod X3
pub mod Execute
use z80e.Common.{
  ℕ, zero, suc, ◌≤◌, ◌<◌, ◌≡◌, refl, arith, Bool, true, false, if◌then◌else◌, switch, switch-All,
  All, all_nil, all_cons, List, [], ◌∷◌, Option, none, some, Option-cases, inl, inr, u8, u16, ◌%◌,
  ◌^◌,
}
use z80e.Core.Registers.{Registers}
use z80e.Core.Cpu.{
  Board, Cpu, Context, Exec, pure, ◌>>=◌, ◌>>◌, get_registers, modify_registers, get_cpu,
  get_opcode, modify_cpu, add_cycles, set_prefix, set_opcode, cpu_read_byte, cpu_write_byte,
  cpu_read_word, cpu_write_word, cpu_port_in, cpu_port_out, push, pop, read_n, read_nn, read_d,
}
use z80e.Core.Cpu.Operands.{by_prefix}
use z80e.Core.Cpu.Invariant.Pure.{RegistersFit}
use z80e.Core.Cpu.Invariant.Effects.{Fitting}

-- Every access of the processor to the state outside keeps the property `Q` of it: the interface
-- that the hardware around the processor fills.
pub record IsKept {M : Type 0} (Q : M → Type 0) (board : Board M) : Type 0 where
  pub read_byte : (m : M) (address : ℕ) → Q m → Q (board.read_byte m address).1
  pub write_byte : (m : M) (address value : ℕ) → Q m → Q (board.write_byte m address value)
  pub port_in :
      (port : ℕ) (m : M) {read_in : M → ℕ × M}
      → (board.devices port).read_in ≡ some read_in
      → Q m
      → Q (read_in m).1
  pub port_out :
      (port value : ℕ) (m : M) {write_out : M → ℕ → M}
      → (board.devices port).write_out ≡ some write_out
      → Q m
      → Q (write_out m value)
  pub hook_on_port_in : (m : M) (port value : ℕ) → Q m → Q (board.hook_on_port_in m port value).1
  pub hook_on_port_out : (m : M) (port value : ℕ) → Q m → Q (board.hook_on_port_out m port value).1

-- Code that, from every context, keeps the register file within its widths and keeps `Q`.
pub record Keeps {M A : Type 0} (Q : M → Type 0) (m : Exec M A) : Type 0 where
  pub keeps :
      (s : Context M)
      → RegistersFit s.cpu.registers × Q s.cpu.memory
      → RegistersFit (m s).1.cpu.registers × Q (m s).1.cpu.memory

module _ {M : Type 0} {Q : M → Type 0} where
  pub Keeps-pure : {A : Type 0} (a : A) → Keeps Q (pure a)
  unfolding pure
  Keeps-pure a = record { keeps = λ s h. h }

  pub Keeps-bind :
      {A B : Type 0} (m : Exec M A) (k : A → Exec M B)
      → Keeps Q m
      → ((a : A) → Keeps Q (k a))
      → Keeps Q (m >>= k)
  unfolding ◌>>=◌
  Keeps-bind m k p q = record { keeps = λ s h. (q (m s).0).keeps (m s).1 (p.keeps s h) }

  pub Keeps-then :
      {A B : Type 0} (m : Exec M A) (k : Exec M B) → Keeps Q m → Keeps Q k → Keeps Q (m >> k)
  unfolding ◌>>◌ ◌>>=◌
  Keeps-then m k p q = record { keeps = λ s h. q.keeps (m s).1 (p.keeps s h) }

  pub Keeps-if :
      {A : Type 0} (t : Bool) (m k : Exec M A)
      → Keeps Q m
      → Keeps Q k
      → Keeps Q (if t then m else k)
  Keeps-if true m k p q = p
  Keeps-if false m k p q = q

  pub Keeps-get_registers : Keeps Q get_registers
  unfolding get_registers
  Keeps-get_registers = record { keeps = λ s h. h }

  pub Keeps-get_cpu : Keeps Q get_cpu
  unfolding get_cpu
  Keeps-get_cpu = record { keeps = λ s h. h }

  pub Keeps-modify_registers :
      (g : Registers → Registers) → Fitting g → Keeps Q (modify_registers g)
  unfolding modify_registers
  Keeps-modify_registers g p = record { keeps = λ s h. (p.fit s.cpu.registers h.0, h.1) }

  pub Keeps-add_cycles : (n : ℕ) → Keeps Q (add_cycles n)
  unfolding add_cycles
  Keeps-add_cycles n = record { keeps = λ s h. h }

  pub Keeps-set_prefix : (v : ℕ) → Keeps Q (set_prefix v)
  unfolding set_prefix modify_cpu
  Keeps-set_prefix v = record { keeps = λ s h. h }

  pub Keeps-set_opcode : (v : ℕ) → Keeps Q (set_opcode v)
  unfolding set_opcode
  Keeps-set_opcode v = record { keeps = λ s h. h }

module _ {M A : Type 0} {Q : M → Type 0} where
  pub Keeps-switch :
      (i : ℕ) (d : Exec M A) (xs : List (Exec M A))
      → Keeps Q d
      → All (Keeps Q) xs
      → Keeps Q (switch i d xs)
  Keeps-switch i d xs h all = switch-All (Keeps Q) i d xs h all

  pub Keeps-nil : All {A = Exec M A} (Keeps Q) []
  Keeps-nil = all_nil

  pub Keeps-cons :
      (m : Exec M A) (xs : List (Exec M A)) → Keeps Q m → All (Keeps Q) xs → All (Keeps Q) (m ∷ xs)
  Keeps-cons m xs h all = all_cons h all

-- A change of the processor that leaves the registers.
pub Keeps-modify_cpu :
    {M : Type 0} {Q : M → Type 0} (g : Cpu M → Cpu M)
    → ((cpu : Cpu M) → (g cpu).registers ≡ cpu.registers)
    → ((cpu : Cpu M) → (g cpu).memory ≡ cpu.memory)
    → Keeps Q (modify_cpu g)
unfolding modify_cpu
Keeps-modify_cpu g same outside = record { keeps = λ s h. rw (same s.cpu, outside s.cpu) h }

-- Stores into one or two fields.
pub Fitting-pc : (v : Registers → ℕ) → Fitting (λ reg. record reg { pc = u16 (v reg) })
Fitting-pc v = record { fit = λ reg h. omega arith }

pub Fitting-pc_wz :
    (v w : Registers → ℕ) → Fitting (λ reg. record reg { pc = u16 (v reg); wz = u16 (w reg) })
Fitting-pc_wz v w = record { fit = λ reg h. omega arith }

pub Fitting-a : (v : Registers → ℕ) → Fitting (λ reg. record reg { a = u8 (v reg) })
Fitting-a v = record { fit = λ reg h. omega arith }

pub Fitting-b : (v : Registers → ℕ) → Fitting (λ reg. record reg { b = u8 (v reg) })
Fitting-b v = record { fit = λ reg h. omega arith }

pub Fitting-if :
    (t : Bool) (g k : Registers → Registers) → Fitting g → Fitting k → Fitting (if t then g else k)
Fitting-if true g k p q = p
Fitting-if false g k p q = q

module _ {M : Type 0} {Q : M → Type 0} where
  pub Keeps-halted : (v : Bool) → Keeps Q (modify_cpu (λ cpu. record cpu { halted = v }))
  Keeps-halted v = Keeps-modify_cpu _ (λ cpu. refl) (λ cpu. refl)

  pub Keeps-iff_wait : (v : Bool) → Keeps Q (modify_cpu (λ cpu. record cpu { iff_wait = v }))
  Keeps-iff_wait v = Keeps-modify_cpu _ (λ cpu. refl) (λ cpu. refl)

  pub Keeps-get_opcode : Keeps Q get_opcode
  unfolding get_opcode
  Keeps-get_opcode = record { keeps = λ s h. h }

pub Fitting-sp : (v : Registers → ℕ) → Fitting (λ reg. record reg { sp = u16 (v reg) })
Fitting-sp v = record { fit = λ reg h. omega arith }

pub Fitting-wz : (v : Registers → ℕ) → Fitting (λ reg. record reg { wz = u16 (v reg) })
Fitting-wz v = record { fit = λ reg h. omega arith }

pub ruleset steps = (
  Keeps-pure, Keeps-bind, Keeps-then, Keeps-if, Keeps-get_registers, Keeps-get_cpu,
  Keeps-modify_registers, Keeps-add_cycles, Keeps-set_prefix, Keeps-set_opcode, Keeps-switch,
  Keeps-nil, Keeps-cons, Keeps-halted, Keeps-iff_wait, Keeps-get_opcode, Fitting-if, Fitting-a,
  Fitting-b, Fitting-pc_wz, Fitting-pc, Fitting-sp, Fitting-wz,
)

module _ {M : Type 0} {Q : M → Type 0} (board : Board M) (safe : IsKept Q board) where
  pub Keeps-cpu_read_byte : (address : ℕ) → Keeps Q (cpu_read_byte board address)
  unfolding cpu_read_byte
  Keeps-cpu_read_byte address = record {
    keeps = λ s h. (h.0, safe.read_byte s.cpu.memory (u16 address) h.1);
  }

  pub Keeps-cpu_write_byte : (address value : ℕ) → Keeps Q (cpu_write_byte board address value)
  unfolding cpu_write_byte
  Keeps-cpu_write_byte address value = record {
    keeps = λ s h. (h.0, safe.write_byte s.cpu.memory (u16 address) (u8 value) h.1);
  }

  pub Keeps-cpu_read_word : (address : ℕ) → Keeps Q (cpu_read_word board address)
  unfolding cpu_read_word
  Keeps-cpu_read_word address = search (steps, Keeps-cpu_read_byte) depth 8

  pub Keeps-cpu_write_word : (address value : ℕ) → Keeps Q (cpu_write_word board address value)
  unfolding cpu_write_word
  Keeps-cpu_write_word address value = search (steps, Keeps-cpu_write_byte) depth 8

  pub Keeps-cpu_port_in : (port : ℕ) → Keeps Q (cpu_port_in board port)
  unfolding cpu_port_in
  Keeps-cpu_port_in port = record {
    keeps = λ s h. elim (Option-cases (board.devices (u8 port)).read_in) [
      | inl absent ↦ rw (absent, cpu_port_in) h
      | inr present ↦
          let (read_in, e) = present in
          rw (e, cpu_port_in)
            (h.0, safe.hook_on_port_in _ _ _ (safe.port_in (u8 port) s.cpu.memory e h.1))
    ];
  }

  pub Keeps-cpu_port_out : (port val : ℕ) → Keeps Q (cpu_port_out board port val)
  unfolding cpu_port_out
  Keeps-cpu_port_out port val = record {
    keeps = λ s h. elim (Option-cases (board.devices (u8 port)).write_out) [
      | inl absent ↦ rw (absent, cpu_port_out) h
      | inr present ↦
          let (write_out, e) = present in
          rw (e, cpu_port_out)
            (h.0, safe.port_out (u8 port) _ _ e (safe.hook_on_port_out _ _ _ h.1))
    ];
  }

  pub Keeps-push : (value : ℕ) → Keeps Q (push board value)
  unfolding push
  Keeps-push value = search (steps, Keeps-cpu_write_word) depth 8

  pub Keeps-pop : Keeps Q (pop board)
  unfolding pop
  Keeps-pop = search (steps, Keeps-cpu_read_word) depth 8

  pub Keeps-read_n : Keeps Q (read_n board)
  unfolding read_n
  Keeps-read_n = search (steps, Keeps-cpu_read_byte) depth 8

  pub Keeps-read_nn : Keeps Q (read_nn board)
  unfolding read_nn
  Keeps-read_nn = search (steps, Keeps-cpu_read_word) depth 8

  pub Keeps-read_d : Keeps Q (read_d board)
  unfolding read_d
  Keeps-read_d = search (steps, Keeps-read_n) depth 8

pub ruleset accesses = (
  Keeps-cpu_read_byte, Keeps-cpu_write_byte, Keeps-cpu_read_word, Keeps-cpu_write_word,
  Keeps-cpu_port_in, Keeps-cpu_port_out, Keeps-push, Keeps-pop, Keeps-read_n, Keeps-read_nn,
  Keeps-read_d,
)

-- ===== src/Core/Cpu.antt =====
-- `z80cpu_t`, `struct ExecutionContext` and the accesses to memory and ports of
-- libz80e/src/core/cpu.c. `M` is the state of everything outside the processor: the memory, the
-- devices and the hooks, which the processor reaches through function pointers only.
pub mod Operands
pub mod Alu
pub mod Rotate
pub mod Block
pub mod Interrupt
pub mod Instructions
pub mod Named
pub mod Execute
pub mod Invariant
use z80e.Common.{
  ℕ, zero, suc, ◌+◌, ◌-◌, ◌*◌, ◌/◌, ◌%◌, ◌^◌, Bool, true, false, Option, none, some, bit_and, ◌|||◌,
  u8, u16, int_sub, sign_extend, ◌<<<◌, ◌>>>◌,
}
use z80e.Core.Registers.{Registers}

-- `z80iodevice_t`: an absent function is a null pointer.
pub record Device (M : Type 0) : Type 0 where
  pub read_in : Option (M → ℕ × M)
  pub write_out : Option (M → ℕ → M)

-- What the function pointers of `z80cpu_t` and the port hooks do to the state outside, and the
-- pin `interrupt`, which the devices set and the processor only reads.
pub record Board (M : Type 0) : Type 0 where
  pub read_byte : M → ℕ → ℕ × M
  pub write_byte : M → ℕ → ℕ → M
  pub devices : ℕ → Device M
  pub hook_on_port_in : M → ℕ → ℕ → ℕ × M
  pub hook_on_port_out : M → ℕ → ℕ → ℕ × M
  pub interrupt : M → Bool

pub record Cpu (M : Type 0) : Type 0 where
  pub registers : Registers
  pub iff1 : Bool
  pub iff2 : Bool
  pub int_mode : ℕ
  pub iff_wait : Bool
  pub halted : Bool
  pub bus : ℕ
  pub prefix : ℕ
  pub memory : M

-- `struct ExecutionContext`: the readers `n`, `nn` and `d` are always `read_n`, `read_nn` and
-- `read_d`.
pub record Context (M : Type 0) : Type 0 where
  pub cycles : ℕ
  pub opcode : ℕ
  pub cpu : Cpu M

-- The fields of the opcode.
abbrev pub x_of : ℕ → ℕ
x_of opcode = opcode / 64 % 4

abbrev pub y_of : ℕ → ℕ
y_of opcode = opcode / 8 % 8

abbrev pub z_of : ℕ → ℕ
z_of opcode = opcode % 8

abbrev pub q_of : ℕ → ℕ
q_of opcode = opcode / 8 % 2

abbrev pub p_of : ℕ → ℕ
p_of opcode = opcode / 16 % 4

-- Code that runs on a context and returns a value.
abbrev pub Exec : Type 0 → Type 0 → Type 0
Exec M A = Context M → A × Context M

unfoldable pub pure : {M A : Type 0} → A → Exec M A
pure a s = (a, s)

infixl 5 ◌>>=◌ ◌>>◌
unfoldable pub ◌>>=◌ : {M A B : Type 0} → Exec M A → (A → Exec M B) → Exec M B
◌>>=◌ m k s = let (a, s') = m s in k a s'

unfoldable pub ◌>>◌ : {M A B : Type 0} → Exec M A → Exec M B → Exec M B
◌>>◌ m k = m >>= λ _. k

-- The primitive steps: read a part of the state, or replace it.
unfoldable pub get_registers : {M : Type 0} → Exec M Registers
get_registers s = (s.cpu.registers, s)

unfoldable pub modify_registers : {M : Type 0} → (Registers → Registers) → Exec M (Unit {0})
modify_registers g s = (tt, record s { cpu = record (s.cpu) { registers = g s.cpu.registers } })

unfoldable pub get_cpu : {M : Type 0} → Exec M (Cpu M)
get_cpu s = (s.cpu, s)

unfoldable pub get_opcode : {M : Type 0} → Exec M ℕ
get_opcode s = (s.opcode, s)

unfoldable pub modify_cpu : {M : Type 0} → (Cpu M → Cpu M) → Exec M (Unit {0})
modify_cpu g s = (tt, record s { cpu = g s.cpu })

-- The plumbing, under one name for the `unfolding` lines of proofs that run code.
unfoldable pub exec_code : Unit {0}
unfolding pure ◌>>=◌ ◌>>◌ get_registers modify_registers get_cpu get_opcode modify_cpu
exec_code = tt

-- `cycles` is a `uint8_t`.
unfoldable pub add_cycles : {M : Type 0} → ℕ → Exec M (Unit {0})
add_cycles n s = (tt, record s { cycles = u8 (s.cycles + n) })

unfoldable pub set_prefix : {M : Type 0} → ℕ → Exec M (Unit {0})
set_prefix v = modify_cpu (λ cpu. record cpu { prefix = u16 v })

unfoldable pub set_opcode : {M : Type 0} → ℕ → Exec M (Unit {0})
set_opcode v s = (tt, record s { opcode = v })

abbrev pub with_memory : {M : Type 0} → M → Context M → Context M
with_memory mem s = record s { cpu = record (s.cpu) { memory = mem } }

module _ {M : Type 0} (board : Board M) where
  unfoldable pub cpu_read_byte : ℕ → Exec M ℕ
  cpu_read_byte address s =
      let (v, mem) = board.read_byte s.cpu.memory (u16 address) in (u8 v, with_memory mem s)

  unfoldable pub cpu_write_byte : ℕ → ℕ → Exec M (Unit {0})
  cpu_write_byte address value s =
      (tt, with_memory (board.write_byte s.cpu.memory (u16 address) (u8 value)) s)

  unfoldable pub cpu_read_word : ℕ → Exec M ℕ
  cpu_read_word address = do
    lo ← cpu_read_byte address
    hi ← cpu_read_byte (address + 1)
    pure (lo ||| hi <<< 8)

  unfoldable pub cpu_write_word : ℕ → ℕ → Exec M (Unit {0})
  cpu_write_word address value = do
    cpu_write_byte address (bit_and value 0xff)
    cpu_write_byte (address + 1) (value >>> 8)

  -- A port with no reader gives 0.
  unfoldable pub cpu_port_in : ℕ → Exec M ℕ
  cpu_port_in port s = elim (board.devices (u8 port)).read_in [
    | none ↦ (0, s)
    | some read_in ↦
        let (v, mem) = read_in s.cpu.memory in
        let (v', mem') = board.hook_on_port_in mem (u8 port) (u8 v) in (u8 v', with_memory mem' s)
  ]

  unfoldable pub cpu_port_out : ℕ → ℕ → Exec M (Unit {0})
  cpu_port_out port val s = elim (board.devices (u8 port)).write_out [
    | none ↦ (tt, s)
    | some write_out ↦
        let (v', mem) = board.hook_on_port_out s.cpu.memory (u8 port) (u8 val) in
        (tt, with_memory (write_out mem (u8 v')) s)
  ]

  unfoldable pub push : ℕ → Exec M (Unit {0})
  push value = do
    reg ← get_registers
    cpu_write_word (int_sub reg.sp 2) value
    modify_registers (λ reg'. record reg' { sp = u16 (int_sub reg'.sp 2) })

  unfoldable pub pop : Exec M ℕ
  pop = do
    reg ← get_registers
    a ← cpu_read_word reg.sp
    modify_registers (λ reg'. record reg' { sp = u16 (reg'.sp + 2) })
    pure a

  -- The program counter has moved on before the read.
  unfoldable pub read_n : Exec M ℕ
  read_n = do
    reg ← get_registers
    modify_registers (λ reg'. record reg' { pc = u16 (reg'.pc + 1) })
    cpu_read_byte reg.pc

  unfoldable pub read_nn : Exec M ℕ
  read_nn = do
    reg ← get_registers
    a ← cpu_read_word reg.pc
    modify_registers (λ reg'. record reg' { pc = u16 (reg'.pc + 2) })
    pure a

  unfoldable pub read_d : Exec M ℕ
  read_d = do d ← read_n; pure (sign_extend d)

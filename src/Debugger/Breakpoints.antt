-- ===== src/Debugger/Breakpoints.antt =====
-- libz80e/src/debugger/commands/on.c: the names of registers, and breakpoints with a count. A count is
-- the 32-bit pattern of an `int`; the log is left out.
pub mod Count
use z80e.Common.{
  ℕ, ◌+◌, ◌-◌, ◌%◌, ◌^◌, Bool, true, false, List, [], ◌∷◌, Option, none, some, ◌==◌, if◌then◌else◌,
}
use z80e.Core.Cpu.Named.{
  Register, reg_a, reg_f, reg_af, reg_af', reg_b, reg_c, reg_bc, reg_bc', reg_d, reg_e, reg_de,
  reg_de', reg_h, reg_l, reg_hl, reg_hl', reg_pc, reg_sp, reg_i, reg_r, reg_ixh, reg_ixl, reg_ix,
  reg_iyh, reg_iyl, reg_iy,
}
use z80e.Disassembler.SourceMap.{begins, first_of}
use z80e.Hooks.{ExecutionHook, hook_remove_execution}

-- The lines of `REGISTER`, in their order, with the codes of the letters.
abbrev pub register_names : List (List ℕ × Register)
register_names =
    (65 ∷ [], reg_a)
    ∷ (66 ∷ [], reg_b)
    ∷ (67 ∷ [], reg_c)
    ∷ (68 ∷ [], reg_d)
    ∷ (69 ∷ [], reg_e)
    ∷ (70 ∷ [], reg_f)
    ∷ (72 ∷ [], reg_h)
    ∷ (76 ∷ [], reg_l)
    ∷ (65 ∷ 70 ∷ [], reg_af)
    ∷ (65 ∷ 70 ∷ 39 ∷ [], reg_af')
    ∷ (66 ∷ 67 ∷ [], reg_bc)
    ∷ (66 ∷ 67 ∷ 39 ∷ [], reg_bc')
    ∷ (68 ∷ 69 ∷ [], reg_de)
    ∷ (68 ∷ 69 ∷ 39 ∷ [], reg_de')
    ∷ (72 ∷ 76 ∷ [], reg_hl)
    ∷ (72 ∷ 76 ∷ 39 ∷ [], reg_hl')
    ∷ (80 ∷ 67 ∷ [], reg_pc)
    ∷ (83 ∷ 80 ∷ [], reg_sp)
    ∷ (73 ∷ [], reg_i)
    ∷ (82 ∷ [], reg_r)
    ∷ (73 ∷ 88 ∷ 72 ∷ [], reg_ixh)
    ∷ (73 ∷ 88 ∷ 76 ∷ [], reg_ixl)
    ∷ (73 ∷ 88 ∷ [], reg_ix)
    ∷ (73 ∷ 89 ∷ 72 ∷ [], reg_iyh)
    ∷ (73 ∷ 89 ∷ 76 ∷ [], reg_iyl)
    ∷ (73 ∷ 89 ∷ [], reg_iy)
    ∷ []

-- -1 is `none`.
unfoldable pub register_from_string : List ℕ → Option Register
register_from_string string =
    first_of (λ (line : List ℕ × Register). if begins line.0 string then some line.1 else none)
      register_names

-- `struct break_data`.
pub record BreakData : Type 0 where
  pub address : ℕ
  pub hook_id : ℕ
  pub count : ℕ

-- The data of `command_break`: the count is -1 unless the command has one.
unfoldable pub new_break : ℕ → Option ℕ → ℕ → BreakData
new_break address none hook_id = record { address = address; hook_id = hook_id; count = 2 ^ 32 - 1 }
new_break address (some count) hook_id = record {
  address = address;
  hook_id = hook_id;
  count = count;
}

-- The data, `asic->stopped`, and the table of hooks that run before an instruction.
abbrev pub BreakState : Type 0 → Type 0
BreakState W = BreakData × Bool × List (ExecutionHook W)

unfoldable pub break_callback : {W : Type 0} → ℕ → BreakState W → BreakState W
break_callback address (brk, stopped, hook) =
    let count = (brk.count + (2 ^ 32 - 1)) % 2 ^ 32 in
    if brk.address == address
    then (if brk.count == 2 ^ 32 - 1 then (brk, true, hook) else (
      record brk { count = count },
      true,
      if count == 0 then hook_remove_execution hook brk.hook_id else hook,
    ))
    else (brk, stopped, hook)

-- ===== src/Disassembler/Nested.antt =====
-- The call of `parse_instruction` inside itself, for the instruction K of KnightOS.
use Prim.Native.String.{String}
use z80e.Common.{ℕ, zero, suc, none, ◌≡◌, refl, true, List, Option, switch}
use z80e.Disassembler.{Line, ◌>>◌, ◌>>=◌, write}
use z80e.Disassembler.SourceMap.{Object, try_from_sourcemap}
use z80e.Disassembler.Instruction.{
  index_prefix, read_prefix, read_opcode, parse_opcode, parse_code, parse_instruction,
}
use z80e.Disassembler.Plain.{parse_x3, parse_rst}

-- With the system calls of KnightOS, in a memory of 0xCF bytes only, and with loaded objects whose
-- source maps know no address: no depth of nested calls is enough for `parse_instruction`, from
-- whatever place it starts.
pub parse_instruction-nested :
    (pcalls : Option (List (String × ℕ))) (objects : List Object)
    → ((address : ℕ) → try_from_sourcemap (λ _. 0xcf) objects address ≡ none)
    → (fuel : ℕ) (line : Line)
    → (parse_instruction (λ _. 0xcf) pcalls objects true fuel line).1.spent ≡ true
unfolding parse_instruction parse_code parse_opcode read_prefix index_prefix read_opcode parse_x3
    parse_rst switch write ◌>>◌ ◌>>=◌
parse_instruction-nested pcalls objects no_map zero line = refl
parse_instruction-nested pcalls objects no_map (suc fuel) line =
    rw (no_map line.current, parse_instruction)
      (parse_instruction-nested pcalls objects no_map fuel _)

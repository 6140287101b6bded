-- ===== src/Disassembler/Standard.antt =====
-- The length of an instruction from its first bytes.
use z80e.Common.{
  ℕ, ◌+◌, ◌-◌, ◌^◌, ◌<◌, ◌≤◌, ◌≡◌, refl, ◌∙◌, arith, Bool, true, false, not, ◌||◌, ◌&&◌, List,
  Option, ◌==◌, ◌!=◌, ◌<<<◌, ◌|||◌, if◌then◌else◌, bit_and, u16,
}
use Prim.Native.String.{String}
use z80e.Core.Cpu.{x_of, z_of}
use z80e.Disassembler.{Line, Print}
use z80e.Disassembler.SourceMap.{Object}
use z80e.Disassembler.Instruction.{
  byte_at, both_prefixes, index_prefix, read_prefix, read_opcode, parse_opcode, parse_code,
}
use z80e.Disassembler.Moves.{is_index}
use z80e.Disassembler.Shifts.{Shifts}
use z80e.Disassembler.Length.{
  among, operand_bytes, ed_word_opcodes, size_plain, size_plain-operand_bytes, operand_bytes-le,
  left_prefix, left_prefix-both_prefixes, parse_code-Shifts, Shifts-plain,
}

abbrev pub is_index_byte : ℕ → Bool
is_index_byte b = b == 0xdd || b == 0xfd

abbrev pub is_table_byte : ℕ → Bool
is_table_byte b = b == 0xcb || b == 0xed

-- The length that the manual gives, by the first two bytes, for the instructions that `is_standard`
-- accepts.
unfoldable pub instruction_length : ℕ → ℕ → ℕ
instruction_length b0 b1 =
    if is_index_byte b0
    then (if is_table_byte b1 then 4 else 2 + operand_bytes true b1)
    else (if b0 == 0xcb
        then 2
        else (if b0 == 0xed
            then 2 + (if among b1 ed_word_opcodes then 2 else 0)
            else 1 + operand_bytes false b0))

-- Instructions of the manual: after an index prefix no other one and no 0xED, and after 0xCB there
-- (HL) only.
unfoldable pub is_standard : ℕ → ℕ → ℕ → Bool
is_standard b0 b1 b3 =
    not (is_index_byte b0 && (is_index_byte b1 || b1 == 0xed || b1 == 0xcb && z_of b3 != 6))

-- The place after `k` bytes of prefix, the opcode and `n` bytes of operands, and how far it is.
place : (start k n : ℕ) → u16 (u16 (u16 (start + k) + 1) + n) ≡ u16 (start + (k + 1 + n))
place start k n = omega arith

distance :
    (start k n : ℕ)
    → start < 2 ^ 16
    → k ≤ 1
    → n ≤ 3
    → u16 (u16 (u16 (u16 (start + k) + 1) + n) + (2 ^ 16 - start)) ≡ k + 1 + n
distance start k n fits le small = omega arith

-- What is to be shown of a result.
pub record HasLength (start len : ℕ) (r : ℕ × Line) : Type 0 where
  pub returned : r.0 ≡ len
  pub current : r.1.current ≡ u16 (start + len)

module _ (read_byte : ℕ → ℕ) (pcalls : Option (List (String × ℕ))) (objects : List Object) where
  pub HasLength-plain :
      (again : Print (Unit {0})) (line : Line) (prefix k : ℕ)
      → line.current < 2 ^ 16
      → k ≤ 1
      → bit_and prefix 0xff ≡ 0
      → read_prefix read_byte line.current ≡ (prefix, u16 (line.current + k))
      → HasLength line.current
          (k + 1 + operand_bytes (is_index prefix) (byte_at read_byte (line.current + k)))
          (parse_code read_byte pcalls objects false again line)
  unfolding read_opcode
  HasLength-plain again line prefix k fits le low e =
      let opcode = byte_at read_byte (line.current + k) in
      let idx = is_index prefix in
      let same : u16 (u16 (line.current + k)) ≡ u16 (line.current + k) = omega arith in
      let single : both_prefixes prefix ≡ false = ground arith in
      let e' : read_opcode read_byte prefix (u16 (line.current + k))
          ≡ (opcode, u16 (u16 (line.current + k) + 1)) =
        rw (single, same) refl in
      let q = left_prefix prefix opcode (x_of opcode) in
      let done =
        parse_code-Shifts read_byte pcalls objects again line prefix (u16 (line.current + k)) opcode
          (u16 (u16 (line.current + k) + 1)) q (size_plain idx opcode) e e' (omega arith)
          (Shifts-plain read_byte pcalls objects again prefix opcode low) in
      let plain = left_prefix-both_prefixes prefix opcode (x_of opcode) low in
      let table = size_plain-operand_bytes idx opcode (omega arith) in
      let small = operand_bytes-le idx opcode in
      let (returned, current) = rw (plain, table) at done in
      record {
        returned = returned ∙ distance line.current k (operand_bytes idx opcode) fits le small;
        current = current ∙ place line.current k (operand_bytes idx opcode);
      }

  pub HasLength-table :
      (again : Print (Unit {0})) (line : Line) (prefix : ℕ) (n : ℕ)
      → line.current < 2 ^ 16
      → n ≤ 2
      → both_prefixes prefix ≡ false
      → read_prefix read_byte line.current ≡ (prefix, u16 (line.current + 1))
      → Shifts prefix prefix
          (parse_opcode read_byte pcalls objects false again prefix
            (byte_at read_byte (line.current + 1)))
          n
      → HasLength line.current (2 + n) (parse_code read_byte pcalls objects false again line)
  unfolding read_opcode
  HasLength-table again line prefix n fits small single e h =
      let opcode = byte_at read_byte (line.current + 1) in
      let same : u16 (u16 (line.current + 1)) ≡ u16 (line.current + 1) = omega arith in
      let e' : read_opcode read_byte prefix (u16 (line.current + 1))
          ≡ (opcode, u16 (u16 (line.current + 1) + 1)) =
        rw (single, same) refl in
      let done =
        parse_code-Shifts read_byte pcalls objects again line prefix (u16 (line.current + 1)) opcode
          (u16 (u16 (line.current + 1) + 1)) prefix n e e' (omega arith) h in
      let (returned, current) = rw single at done in
      record {
        returned = returned ∙ distance line.current 1 n fits (omega arith) (omega arith);
        current = current ∙ place line.current 1 n;
      }

  -- After an index prefix and 0xCB: the displacement stands before the opcode.
  pub HasLength-both :
      (again : Print (Unit {0})) (line : Line) (prefix n : ℕ)
      → line.current < 2 ^ 16
      → n ≤ 1
      → both_prefixes prefix ≡ true
      → read_prefix read_byte line.current ≡ (prefix, u16 (line.current + 2))
      → Shifts prefix prefix
          (parse_opcode read_byte pcalls objects false again prefix
            (byte_at read_byte (line.current + 3)))
          n
      → HasLength line.current (3 + n) (parse_code read_byte pcalls objects false again line)
  unfolding read_opcode
  HasLength-both again line prefix n fits small both e h =
      let same : u16 (u16 (line.current + 2) + 1) ≡ u16 (line.current + 3) = omega arith in
      let e' : read_opcode read_byte prefix (u16 (line.current + 2))
          ≡ (byte_at read_byte (line.current + 3), u16 (line.current + 2)) =
        rw (both, same) refl in
      let done =
        parse_code-Shifts read_byte pcalls objects again line prefix (u16 (line.current + 2))
          (byte_at read_byte (line.current + 3)) (u16 (line.current + 2)) prefix n e e'
          (omega arith) h in
      let (returned, current) = rw both at done in
      record { returned = returned ∙ omega arith; current = current ∙ omega arith }

module _ (read_byte : ℕ → ℕ) where
  pub prefix_none :
      (start : ℕ)
      → start < 2 ^ 16
      → is_index_byte (byte_at read_byte start) ≡ false
      → is_table_byte (byte_at read_byte start) ≡ false
      → read_prefix read_byte start ≡ (0, u16 (start + 0))
  unfolding read_prefix index_prefix
  prefix_none start fits no_index no_table =
      let same : u16 (start + 0) ≡ start = omega arith in rw (no_index, no_table, same) refl

  pub prefix_table :
      (start b : ℕ)
      → byte_at read_byte start ≡ b
      → is_index_byte b ≡ false
      → is_table_byte b ≡ true
      → read_prefix read_byte start ≡ (bit_and 0 0xff00 ||| b, u16 (start + 1))
  unfolding read_prefix index_prefix
  prefix_table start b e no_index table = rw (e, no_index, e, table) refl

  pub prefix_index :
      (start b b1 : ℕ)
      → byte_at read_byte start ≡ b
      → is_index_byte b ≡ true
      → byte_at read_byte (start + 1) ≡ b1
      → is_table_byte b1 ≡ false
      → read_prefix read_byte start ≡ (b <<< 8, u16 (start + 1))
  unfolding read_prefix index_prefix
  prefix_index start b b1 e index e1 no_table =
      let same : u16 (u16 (start + 1)) ≡ u16 (start + 1) = omega arith in
      rw (e, index, same, e1, no_table) refl

  pub prefix_both :
      (start b b1 : ℕ)
      → byte_at read_byte start ≡ b
      → is_index_byte b ≡ true
      → byte_at read_byte (start + 1) ≡ b1
      → is_table_byte b1 ≡ true
      → read_prefix read_byte start ≡ (bit_and (b <<< 8) 0xff00 ||| b1, u16 (start + 2))
  unfolding read_prefix index_prefix
  prefix_both start b b1 e index e1 table =
      let same : u16 (u16 (start + 1)) ≡ u16 (start + 1) = omega arith in
      let second : u16 (u16 (start + 1) + 1) ≡ u16 (start + 2) = omega arith in
      rw (e, index, same, e1, table, second) refl

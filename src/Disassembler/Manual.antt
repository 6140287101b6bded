-- ===== src/Disassembler/Manual.antt =====
-- The disassembler takes the bytes that the manual gives to an instruction.
use z80e.Common.{
  ℕ, suc, ◌+◌, ◌^◌, ◌<◌, ◌≤◌, ◌≡◌, ◌≢◌, refl, arith, true, false, List, Option, none, ◌==◌, ◌<<<◌,
  ◌|||◌, if◌then◌else◌, switch, bit_and, u16, Bool-cases, inl, inr,
}
use Prim.Native.String.{String}
use z80e.Disassembler.{pure}
use z80e.Disassembler.Instruction.{read_opcode}
use z80e.Disassembler.Plain.{parse_x3, parse_x3_z5}
use z80e.Core.Cpu.{z_of}
use z80e.Disassembler.{Line, Print}
use z80e.Disassembler.SourceMap.{Object, try_from_sourcemap}
use z80e.Disassembler.Instruction.{
  byte_at, both_prefixes, parse_opcode, parse_code, parse_instruction,
}
use z80e.Disassembler.Moves.{is_index}
use z80e.Disassembler.Shifts.{Shifts-Moves, size_r}
use z80e.Disassembler.Groups.{Moves-parse_cb, Moves-parse_ed}
use z80e.Disassembler.Length.{among, operand_bytes, ed_word_opcodes, size_ed-word}
use z80e.Disassembler.Standard.{
  is_index_byte, is_table_byte, instruction_length, is_standard, HasLength, HasLength-plain,
  HasLength-table, HasLength-both, prefix_none, prefix_table, prefix_index, prefix_both,
}

-- The prefix of an index register and 0xCB.
abbrev index_cb : ℕ → ℕ
index_cb b = bit_and (b <<< 8) 0xff00 ||| 0xcb

record IsIndex (b : ℕ) : Type 0 where
  index : is_index (b <<< 8) ≡ true
  low : bit_and (b <<< 8) 0xff ≡ 0
  both : both_prefixes (index_cb b) ≡ true
  table : bit_and (index_cb b) 0xff ≡ 0xcb
  index' : is_index (index_cb b) ≡ true

is_index_byte-IsIndex : (b : ℕ) → is_index_byte b ≡ true → IsIndex b
is_index_byte-IsIndex b h = elim (Bool-cases (b == 0xdd)) [
  | inl ix ↦
      let e : b ≡ 0xdd = ground arith in
      record {
        index = rw e refl;
        low = rw e refl;
        both = rw e refl;
        table = rw e refl;
        index' = rw e refl;
      }
  | inr no_ix ↦
      let e : b ≡ 0xfd = ground arith in
      record {
        index = rw e refl;
        low = rw e refl;
        both = rw e refl;
        table = rw e refl;
        index' = rw e refl;
      }
]

size_r-false : (part : ℕ) → part < 8 → size_r false part ≡ 0
unfolding switch
size_r-false part small = ground arith

size_r_le : (part : ℕ) → size_r true part ≤ 1
unfolding switch
size_r_le part = ground arith

module _ (read_byte : ℕ → ℕ) (pcalls : Option (List (String × ℕ))) (objects : List Object)
    (again : Print (Unit {0})) (line : Line) (fits : line.current < 2 ^ 16) where
  abbrev at : ℕ → ℕ
  at k = byte_at read_byte (line.current + k)

  abbrev first : ℕ
  first = byte_at read_byte line.current

  abbrev code : ℕ × Line
  code = parse_code read_byte pcalls objects false again line

  unprefixed :
      is_index_byte first ≡ false
      → is_table_byte first ≡ false
      → HasLength line.current (1 + operand_bytes false first) code
  unprefixed no_index no_table =
      let same : line.current + 0 ≡ line.current = omega arith in
      rw same at (
        HasLength-plain read_byte pcalls objects again line 0 0 fits (omega arith) refl
          (prefix_none read_byte line.current fits no_index no_table))

  with_cb : first ≡ 0xcb → HasLength line.current 2 code
  unfolding parse_opcode
  with_cb e =
      let none_left = size_r-false (z_of (at 1)) (omega arith) in
      HasLength-table read_byte pcalls objects again line 0xcb 0 fits (omega arith) refl
        (prefix_table read_byte line.current 0xcb e refl refl)
        (rw none_left at (Shifts-Moves (Moves-parse_cb {prefix = 0xcb} read_byte (at 1))))

  with_ed :
      first ≡ 0xed
      → HasLength line.current (2 + (if among (at 1) ed_word_opcodes then 2 else 0)) code
  unfolding parse_opcode
  with_ed e =
      let words = size_ed-word (at 1) (omega arith) in
      HasLength-table read_byte pcalls objects again line 0xed _ fits (ground arith) refl
        (prefix_table read_byte line.current 0xed e refl refl)
        (rw words at (Shifts-Moves (Moves-parse_ed {prefix = 0xed} read_byte (at 1))))

  with_index :
      is_index_byte first ≡ true
      → is_table_byte (at 1) ≡ false
      → HasLength line.current (2 + operand_bytes true (at 1)) code
  with_index index no_table =
      let b = is_index_byte-IsIndex first index in
      rw (b.index) at (
        HasLength-plain read_byte pcalls objects again line (first <<< 8) 1 fits (omega arith) b.low
          (prefix_index read_byte line.current first (at 1) refl index refl no_table))

  with_both :
      is_index_byte first ≡ true
      → at 1 ≡ 0xcb
      → HasLength line.current (3 + size_r true (z_of (at 3))) code
  unfolding parse_opcode
  with_both index cb =
      let b = is_index_byte-IsIndex first index in
      HasLength-both read_byte pcalls objects again line (index_cb first) _ fits
        (size_r_le (z_of (at 3))) b.both
        (prefix_both read_byte line.current first 0xcb refl index cb refl)
        (rw (b.table) (
          rw (b.index') at
            (Shifts-Moves (Moves-parse_cb {prefix = index_cb first} read_byte (at 3)))))

  parse_code-HasLength :
      is_standard first (at 1) (at 3) ≡ true
      → HasLength line.current (instruction_length first (at 1)) code
  unfolding is_standard instruction_length switch
  parse_code-HasLength standard = elim (Bool-cases (is_index_byte first)) [
    | inl index ↦ elim (Bool-cases (at 1 == 0xcb)) [
      | inl cb ↦
          let six : size_r true (z_of (at 3)) ≡ 1 = ground arith in
          let table : is_table_byte (at 1) ≡ true = ground arith in
          rw (index, table) (rw six at (with_both index (ground arith)))
      | inr no_cb ↦
          let table : is_table_byte (at 1) ≡ false = ground arith in
          rw (index, table) (with_index index table)
    ]
    | inr no_index ↦ elim (Bool-cases (is_table_byte first)) [
      | inr plain ↦
          let no_cb : (first == 0xcb) ≡ false = ground arith in
          let no_ed : (first == 0xed) ≡ false = ground arith in
          rw (no_index, no_cb, no_ed) (unprefixed no_index plain)
      | inl table ↦ elim (Bool-cases (first == 0xcb)) [
        | inl cb ↦ rw (no_index, cb) (with_cb (ground arith))
        | inr no_cb ↦
            let ed : (first == 0xed) ≡ true = ground arith in
            rw (no_index, no_cb, ed) (with_ed (ground arith))
      ]
    ]
  ]

  parse_code-index_cb :
      is_index_byte first ≡ true → at 1 ≡ 0xcb → z_of (at 3) ≢ 6 → HasLength line.current 3 code
  unfolding switch
  parse_code-index_cb index cb other =
      let none_left : size_r true (z_of (at 3)) ≡ 0 = ground arith in
      rw none_left at (with_both index cb)

  parse_code-index_index :
      is_index_byte first ≡ true → is_index_byte (at 1) ≡ true → HasLength line.current 2 code
  unfolding among
  parse_code-index_index index again_index =
      let table : is_table_byte (at 1) ≡ false = ground arith in
      let nothing : operand_bytes true (at 1) ≡ 0 = elim (Bool-cases (at 1 == 0xdd)) [
        | inl ix ↦ let e : at 1 ≡ 0xdd = ground arith in rw e refl
        | inr iy ↦ let e : at 1 ≡ 0xfd = ground arith in rw e refl
      ] in
      rw nothing at (with_index index table)

  written-index_index :
      is_index_byte first ≡ true → is_index_byte (at 1) ≡ true → code.1.written ≡ line.written
  unfolding parse_code parse_opcode read_opcode parse_x3 parse_x3_z5 switch pure
  written-index_index index again_index =
      let b = is_index_byte-IsIndex first index in
      let table : is_table_byte (at 1) ≡ false = ground arith in
      let start = prefix_index read_byte line.current first (at 1) refl index refl table in
      let same : u16 (u16 (line.current + 1)) ≡ u16 (line.current + 1) = omega arith in
      let single : both_prefixes (first <<< 8) ≡ false = ground (arith, b.low) in
      elim (Bool-cases (at 1 == 0xdd)) [
        | inl ix ↦ let e : at 1 ≡ 0xdd = ground arith in rw (start, single, same, e, b.low) refl
        | inr iy ↦ let e : at 1 ≡ 0xfd = ground arith in rw (start, single, same, e, b.low) refl
      ]

-- Without the system calls of KnightOS and at a place that no source map knows: the length that
-- `parse_instruction` returns, and by which it moves on, is the one that the manual of the processor
-- gives for the bytes there, unless another index prefix or 0xED follows an index prefix, or 0xCB
-- does and the opcode has an operand other than (HL).
pub parse_instruction-length :
    (read_byte : ℕ → ℕ) (pcalls : Option (List (String × ℕ))) (objects : List Object) (fuel : ℕ)
    (line : Line)
    → line.current < 2 ^ 16
    → try_from_sourcemap read_byte objects line.current ≡ none
    → is_standard
        (byte_at read_byte line.current)
        (byte_at read_byte (line.current + 1))
        (byte_at read_byte (line.current + 3))
      ≡ true
    → let len =
        instruction_length
          (byte_at read_byte line.current)
          (byte_at read_byte (line.current + 1)) in
      let result = parse_instruction read_byte pcalls objects false (suc fuel) line in
      (result.0 ≡ len) × (result.1.current ≡ u16 (line.current + len))
unfolding parse_instruction
parse_instruction-length read_byte pcalls objects fuel line fits no_map standard =
    let h = parse_code-HasLength read_byte pcalls objects _ line fits standard in
    rw (no_map, parse_instruction) (h.returned, h.current)

-- Without the system calls of KnightOS and at a place that no source map knows: after an index
-- prefix and 0xCB, an opcode with an operand
-- other than (HL) is given three bytes, although the displacement before it makes them four.
pub parse_instruction-index_cb :
    (read_byte : ℕ → ℕ) (pcalls : Option (List (String × ℕ))) (objects : List Object) (fuel : ℕ)
    (line : Line)
    → line.current < 2 ^ 16
    → try_from_sourcemap read_byte objects line.current ≡ none
    → is_index_byte (byte_at read_byte line.current) ≡ true
    → byte_at read_byte (line.current + 1) ≡ 0xcb
    → z_of (byte_at read_byte (line.current + 3)) ≢ 6
    → let result = parse_instruction read_byte pcalls objects false (suc fuel) line in
      (result.0 ≡ 3)
      × (result.1.current ≡ u16 (line.current + 3))
      × (instruction_length (byte_at read_byte line.current) (byte_at read_byte (line.current + 1))
          ≡ 4)
unfolding parse_instruction instruction_length switch
parse_instruction-index_cb read_byte pcalls objects fuel line fits no_map index cb other =
    let h = parse_code-index_cb read_byte pcalls objects _ line fits index cb other in
    rw (no_map, parse_instruction) (h.returned, h.current, rw (index, cb) refl)

pub parse_instruction-index_index :
    (read_byte : ℕ → ℕ) (pcalls : Option (List (String × ℕ))) (objects : List Object) (fuel : ℕ)
    (line : Line)
    → line.current < 2 ^ 16
    → try_from_sourcemap read_byte objects line.current ≡ none
    → is_index_byte (byte_at read_byte line.current) ≡ true
    → is_index_byte (byte_at read_byte (line.current + 1)) ≡ true
    → let result = parse_instruction read_byte pcalls objects false (suc fuel) line in
      (result.0 ≡ 2)
      × (result.1.current ≡ u16 (line.current + 2))
      × (result.1.written ≡ line.written)
unfolding parse_instruction
parse_instruction-index_index read_byte pcalls objects fuel line fits no_map first second =
    let h = parse_code-index_index read_byte pcalls objects _ line fits first second in
    let silent = written-index_index read_byte pcalls objects _ line fits first second in
    rw (no_map, parse_instruction) (h.returned, h.current, silent)

-- ===== src/Disassembler/Length.antt =====
-- The length that `parse_instruction` returns, against the tables of the processor's manual.
use z80e.Common.{
  ℕ, zero, suc, ◌+◌, ◌-◌, ◌^◌, ◌<◌, ◌≤◌, ◌≡◌, refl, arith, Bool, true, false, ◌&&◌, List, [], ◌∷◌,
  Option, ◌==◌, if◌then◌else◌, switch, bit_and, u16, failures, no_failure,
}
use Prim.Native.String.{String}
use z80e.Core.Cpu.{x_of, y_of, z_of}
use z80e.Disassembler.{Line, Print, pure}
use z80e.Disassembler.SourceMap.{Object}
use z80e.Disassembler.Instruction.{
  both_prefixes, read_prefix, read_opcode, parse_opcode, parse_code,
}
use z80e.Disassembler.Moves.{Moves-pure, is_index}
use z80e.Disassembler.Plain.{parse_x0, parse_x1, parse_x2, parse_x3}
use z80e.Disassembler.Shifts.{Shifts, Shifts-Moves, Shifts-parse_x1, size_r, size_rw}
use z80e.Disassembler.Groups.{
  size_ed, size_x0, size_x3, Moves-parse_x0, Moves-parse_x2, Moves-parse_x3,
}

unfoldable pub among : ℕ → List ℕ → Bool
among n [] = false
among n (x ∷ xs) = let rest = among n xs in if n == x then true else rest

-- Opcodes without a prefix that have a word, and those that have a byte, after them.
abbrev pub word_opcodes : List ℕ
word_opcodes =
    0x01 ∷ 0x11 ∷ 0x21 ∷ 0x31 ∷ 0x22 ∷ 0x2a ∷ 0x32 ∷ 0x3a ∷ 0xc2 ∷ 0xc3 ∷ 0xca ∷ 0xd2 ∷ 0xda ∷ 0xe2
    ∷ 0xea ∷ 0xf2 ∷ 0xfa ∷ 0xc4 ∷ 0xcc ∷ 0xcd ∷ 0xd4 ∷ 0xdc ∷ 0xe4 ∷ 0xec ∷ 0xf4 ∷ 0xfc ∷ []

abbrev pub byte_opcodes : List ℕ
byte_opcodes =
    0x06 ∷ 0x0e ∷ 0x16 ∷ 0x1e ∷ 0x26 ∷ 0x2e ∷ 0x36 ∷ 0x3e ∷ 0x10 ∷ 0x18 ∷ 0x20 ∷ 0x28 ∷ 0x30 ∷ 0x38
    ∷ 0xc6 ∷ 0xce ∷ 0xd6 ∷ 0xde ∷ 0xe6 ∷ 0xee ∷ 0xf6 ∷ 0xfe ∷ 0xd3 ∷ 0xdb ∷ []

-- Opcodes that have the operand (HL), and with an index prefix a displacement for it.
abbrev pub hl_opcodes : List ℕ
hl_opcodes =
    0x34 ∷ 0x35 ∷ 0x36 ∷ 0x46 ∷ 0x4e ∷ 0x56 ∷ 0x5e ∷ 0x66 ∷ 0x6e ∷ 0x7e ∷ 0x70 ∷ 0x71 ∷ 0x72 ∷ 0x73
    ∷ 0x74 ∷ 0x75 ∷ 0x77 ∷ 0x86 ∷ 0x8e ∷ 0x96 ∷ 0x9e ∷ 0xa6 ∷ 0xae ∷ 0xb6 ∷ 0xbe ∷ []

-- Opcodes after 0xED that have a word after them.
abbrev pub ed_word_opcodes : List ℕ
ed_word_opcodes = 0x43 ∷ 0x4b ∷ 0x53 ∷ 0x5b ∷ 0x63 ∷ 0x6b ∷ 0x73 ∷ 0x7b ∷ []

abbrev pub operand_bytes : Bool → ℕ → ℕ
operand_bytes index opcode =
    (if among opcode word_opcodes then 2 else (if among opcode byte_opcodes then 1 else 0))
    + (if index && among opcode hl_opcodes then 1 else 0)

abbrev pub size_plain : Bool → ℕ → ℕ
size_plain index opcode = switch (x_of opcode) 0 (
    size_x0 index opcode
    ∷ (if z_of opcode == 6 && y_of opcode == 6
        then 0
        else size_rw index (y_of opcode) (z_of opcode))
    ∷ size_r index (z_of opcode)
    ∷ size_x3 opcode
    ∷ [])

plain_agrees : ℕ → Bool
plain_agrees opcode =
    size_plain false opcode == operand_bytes false opcode
    && size_plain true opcode == operand_bytes true opcode
    && size_ed false opcode == (if among opcode ed_word_opcodes then 2 else 0)

plain_table : failures plain_agrees 256 ≡ 0
unfolding failures plain_agrees among switch
plain_table = refl

pub size_plain-operand_bytes :
    (index : Bool) (opcode : ℕ)
    → opcode < 2 ^ 8
    → size_plain index opcode ≡ operand_bytes index opcode
unfolding plain_agrees
size_plain-operand_bytes true opcode fits =
    let agrees = no_failure plain_agrees opcode fits plain_table in ground arith
size_plain-operand_bytes false opcode fits =
    let agrees = no_failure plain_agrees opcode fits plain_table in ground arith

pub size_ed-word :
    (opcode : ℕ)
    → opcode < 2 ^ 8
    → size_ed false opcode ≡ (if among opcode ed_word_opcodes then 2 else 0)
unfolding plain_agrees
size_ed-word opcode fits =
    let agrees = no_failure plain_agrees opcode fits plain_table in ground arith

pub operand_bytes-le : (index : Bool) (opcode : ℕ) → operand_bytes index opcode ≤ 3
operand_bytes-le index opcode = ground arith

-- The prefix after an instruction without 0xCB and 0xED.
abbrev pub left_prefix : ℕ → ℕ → ℕ → ℕ
left_prefix prefix opcode x = switch x prefix (
    prefix
    ∷ (if z_of opcode == 6 && y_of opcode == 6
        then prefix
        else (if y_of opcode == 6 then 0 else prefix))
    ∷ [])

module _ (read_byte : ℕ → ℕ) (pcalls : Option (List (String × ℕ))) (objects : List Object) where
  -- What the code after the prefixes does to the place and to the prefix decides the result.
  pub parse_code-Shifts :
      (again : Print (Unit {0})) (line : Line) (prefix after opcode current q n : ℕ)
      → read_prefix read_byte line.current ≡ (prefix, after)
      → read_opcode read_byte prefix after ≡ (opcode, current)
      → current < 2 ^ 16
      → Shifts prefix q (parse_opcode read_byte pcalls objects false again prefix opcode) n
      → let end = if both_prefixes q then u16 (u16 (current + n) + 1) else u16 (current + n) in
        ((parse_code read_byte pcalls objects false again line).0
          ≡ u16 (end + (2 ^ 16 - line.current)))
        × ((parse_code read_byte pcalls objects false again line).1.current ≡ end)
  unfolding parse_code
  parse_code-Shifts again line prefix after opcode current q n e e' fits h =
      let (there, kept) = h.shifts (record line { current = current; prefix = prefix }) refl fits in
      rw (e, e', there, kept) (refl, refl)

  pub Shifts-plain :
      (again : Print (Unit {0})) (prefix opcode : ℕ)
      → bit_and prefix 0xff ≡ 0
      → Shifts prefix
          (left_prefix prefix opcode (x_of opcode))
          (parse_opcode read_byte pcalls objects false again prefix opcode)
          (size_plain (is_index prefix) opcode)
  unfolding parse_opcode switch
  Shifts-plain again prefix opcode low = rw low (by_x (x_of opcode))
    where
      by_x :
          (x : ℕ)
          → Shifts prefix
              (left_prefix prefix opcode x)
              (switch x (pure tt) (
                parse_x0 read_byte opcode
                ∷ parse_x1 read_byte opcode
                ∷ parse_x2 read_byte opcode
                ∷ parse_x3 read_byte pcalls false again opcode
                ∷ []))
              (switch x 0 (
                size_x0 (is_index prefix) opcode
                ∷ (if z_of opcode == 6 && y_of opcode == 6
                    then 0
                    else size_rw (is_index prefix) (y_of opcode) (z_of opcode))
                ∷ size_r (is_index prefix) (z_of opcode)
                ∷ size_x3 opcode
                ∷ []))
      by_x zero = Shifts-Moves (Moves-parse_x0 read_byte opcode)
      by_x (suc zero) = Shifts-parse_x1 read_byte prefix low opcode
      by_x (suc (suc zero)) = Shifts-Moves (Moves-parse_x2 read_byte opcode)
      by_x (suc (suc (suc zero))) = Shifts-Moves (Moves-parse_x3 read_byte pcalls again opcode)
      by_x (suc (suc (suc (suc x)))) = Shifts-Moves (Moves-pure tt)

-- The prefix that is left has no 0xCB and no 0xED either.
pub left_prefix-both_prefixes :
    (prefix opcode x : ℕ)
    → bit_and prefix 0xff ≡ 0
    → both_prefixes (left_prefix prefix opcode x) ≡ false
unfolding switch
left_prefix-both_prefixes prefix opcode zero low = ground arith
left_prefix-both_prefixes prefix opcode (suc zero) low = ground arith
left_prefix-both_prefixes prefix opcode (suc (suc zero)) low = ground arith
left_prefix-both_prefixes prefix opcode (suc (suc (suc x))) low = ground arith

-- ===== src/Disassembler/Instruction.antt =====
-- `parse_instruction`: prefixes, the opcode and the length.
use Prim.Native.String.{String}
use z80e.Common.{
  ℕ, zero, suc, ◌+◌, ◌-◌, ◌^◌, Bool, true, List, [], ◌∷◌, Option, none, some, bit_and, ◌|||◌, ◌<<<◌,
  ◌>>>◌, ◌==◌, ◌!=◌, ◌&&◌, ◌||◌, if◌then◌else◌, switch, u8, u16,
}
use z80e.Core.Cpu.{x_of}
use z80e.Disassembler.{number, text, codes, Line, Print, pure, write}
use z80e.Disassembler.Prefixed.{parse_cb, parse_ed}
use z80e.Disassembler.Plain.{parse_x0, parse_x1, parse_x2, parse_x3}
use z80e.Disassembler.SourceMap.{Object, skip_spaces, try_from_sourcemap}

-- `context.prefix >> 8 && context.prefix & 0xFF`.
abbrev pub both_prefixes : ℕ → Bool
both_prefixes prefix = prefix >>> 8 != 0 && bit_and prefix 0xff != 0

module _ (read_byte : ℕ → ℕ) where
  abbrev pub byte_at : ℕ → ℕ
  byte_at address = u8 (read_byte (u16 address))

  -- The prefix and the place after it, from `start` on.
  unfoldable pub index_prefix : ℕ → ℕ × ℕ
  index_prefix start =
      if byte_at start == 0xdd || byte_at start == 0xfd
      then (byte_at start <<< 8, u16 (start + 1))
      else (0, start)

  unfoldable pub read_prefix : ℕ → ℕ × ℕ
  read_prefix start =
      let (prefix, current) = index_prefix start in
      if byte_at current == 0xcb || byte_at current == 0xed
      then (bit_and prefix 0xff00 ||| byte_at current, u16 (current + 1))
      else (prefix, current)

  -- The opcode and the place after it; with both prefixes the byte before the opcode is still to be
  -- read.
  unfoldable pub read_opcode : ℕ → ℕ → ℕ × ℕ
  read_opcode prefix current =
      if both_prefixes prefix
      then (byte_at (current + 1), current)
      else (byte_at current, u16 (current + 1))

  module _ (pcalls : Option (List (String × ℕ))) (objects : List Object) (knightos : Bool) where
    unfoldable pub parse_opcode : Print (Unit {0}) → ℕ → ℕ → Print (Unit {0})
    parse_opcode again prefix opcode =
        if bit_and prefix 0xff == 0
        then switch (x_of opcode) (pure tt) (
            parse_x0 read_byte opcode
            ∷ parse_x1 read_byte opcode
            ∷ parse_x2 read_byte opcode
            ∷ parse_x3 read_byte pcalls knightos again opcode
            ∷ [])
        else (if bit_and prefix 0xff == 0xcb
            then parse_cb read_byte opcode
            else parse_ed read_byte opcode)

    -- After the search of the source maps.
    unfoldable pub parse_code : Print (Unit {0}) → Line → ℕ × Line
    parse_code again line =
        let (prefix, after_prefix) = read_prefix line.current in
        let (opcode, current) = read_opcode prefix after_prefix in
        let parsed =
          (parse_opcode again prefix opcode
            (record line { current = current; prefix = prefix })).1 in
        let end =
          if both_prefixes parsed.prefix then u16 (parsed.current + 1) else parsed.current in
        (u16 (end + (2 ^ 16 - line.current)), record parsed { current = end })

    unfoldable pub parse_instruction : ℕ → Line → ℕ × Line
    parse_instruction zero line = (0, record line { spent = true })
    parse_instruction (suc fuel) line =
        let rest = parse_instruction fuel in
        elim (try_from_sourcemap read_byte objects line.current) [
          | some found ↦
              let (map, entry) = found in
              (
                u16 entry.length,
                record (write "%s:%d: %s"
                    (text map.file_name
                      ∷ number entry.line_number
                      ∷ codes (skip_spaces entry.source_code)
                      ∷ [])
                    line).1 { current = u16 (line.current + entry.length) },
              )
          | none ↦
              parse_code (λ nested. (tt, record ((rest nested).1) { prefix = nested.prefix })) line
        ]

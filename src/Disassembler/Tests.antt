-- ===== src/Disassembler/Tests.antt =====
-- Some instructions as text, and the theorems on lengths at concrete inputs.
use z80e.Common.{
  ℕ, ◌+◌, ◌≡◌, refl, arith, true, false, [], ◌∷◌, none, some, get_or, ◌==◌, if◌then◌else◌, u16,
}
use z80e.Disassembler.{Line, number}
use z80e.Disassembler.Manual.{
  parse_instruction-length, parse_instruction-index_cb, parse_instruction-index_index,
  parse_instruction-index_index,
}
use z80e.Disassembler.Nested.{parse_instruction-nested}
use z80e.Disassembler.Instruction.{parse_instruction}
use z80e.Disassembler.SourceMap.{
  Symbol, Object, try_from_sourcemap, first_of, get_symbol, begins, thread_offset, find_offset,
}
use z80e.Disassembler.Standard.{instruction_length, is_standard}
use z80e.Disassembler.Code.{print_code}

abbrev at_start : Line
at_start = record { current = 0; prefix = 0; written = []; spent = false }

-- LD (IX + 5), 9
abbrev load : ℕ → ℕ
load address = get_or (0xdd ∷ 0x36 ∷ 5 ∷ 9 ∷ []) address 0

load_text :
    (parse_instruction load none [] false 1 at_start).1.written
    ≡ record { format = "LD "; arguments = [] }
      ∷ record { format = "(IX + 0x%X)"; arguments = number 5 ∷ [] }
      ∷ record { format = ", "; arguments = [] }
      ∷ record { format = "0x%02X"; arguments = number 9 ∷ [] }
      ∷ []
unfolding print_code
load_text = refl

no_map : (read_byte : ℕ → ℕ) → try_from_sourcemap read_byte [] 0 ≡ none
unfolding try_from_sourcemap first_of
no_map read_byte = refl

load_standard : is_standard 0xdd 0x36 9 ≡ true
unfolding is_standard
load_standard = refl

parse_instruction-length_example :
    ((parse_instruction load none [] false 1 at_start).0 ≡ instruction_length 0xdd 0x36)
    × ((parse_instruction load none [] false 1 at_start).1.current
        ≡ u16 (0 + instruction_length 0xdd 0x36))
parse_instruction-length_example =
    parse_instruction-length load none [] 0 at_start (omega arith) (no_map load) load_standard

-- RLC (IX + 5), which also loads B.
abbrev rotate : ℕ → ℕ
rotate address = get_or (0xdd ∷ 0xcb ∷ 5 ∷ 0 ∷ []) address 0

parse_instruction-index_cb_example :
    ((parse_instruction rotate none [] false 1 at_start).0 ≡ 3)
    × ((parse_instruction rotate none [] false 1 at_start).1.current ≡ u16 (0 + 3))
    × (instruction_length 0xdd 0xcb ≡ 4)
parse_instruction-index_cb_example =
    parse_instruction-index_cb rotate none [] 0 at_start (omega arith) (no_map rotate) refl refl
      (λ e. ground arith)

unmapped : (read_byte : ℕ → ℕ) (address : ℕ) → try_from_sourcemap read_byte [] address ≡ none
unfolding try_from_sourcemap first_of
unmapped read_byte address = refl

parse_instruction-nested_example :
    (parse_instruction (λ _. 0xcf) none [] true 50 at_start).1.spent ≡ true
parse_instruction-nested_example =
    parse_instruction-nested none [] (λ address. unmapped (λ _. 0xcf) address) 50 at_start

-- The symbol `Wait` of a thread at 0xA000, in the expression `wait+1`; the second slot of the table of
-- threads has the thread.
abbrev threads : ℕ → ℕ
threads address =
    if address == 0x8201
    then 2
    else (if address == 0x800a then 0xa0 else (if address == 0x9ffe then 0x40 else 0))

abbrev wait : Symbol
wait = record { name = 87 ∷ 97 ∷ 105 ∷ 116 ∷ []; value = 0x12 }

abbrev object : Object
object = record { areas = record { symbols = wait ∷ []; source_map = [] } ∷ [] }

symbol_in_thread :
    get_symbol threads (object ∷ []) 0xa010 (119 ∷ 97 ∷ 105 ∷ 116 ∷ 43 ∷ 49 ∷ []) ≡ some (0xa012, 4)
unfolding get_symbol begins first_of thread_offset find_offset
symbol_in_thread = refl

-- Two index prefixes, and LD HL, 0x1234.
abbrev two_prefixes : ℕ → ℕ
two_prefixes address = get_or (0xdd ∷ 0xfd ∷ 0x21 ∷ 0x34 ∷ 0x12 ∷ []) address 0

parse_instruction-index_index_example :
    ((parse_instruction two_prefixes none [] false 1 at_start).0 ≡ 2)
    × ((parse_instruction two_prefixes none [] false 1 at_start).1.current ≡ u16 (0 + 2))
    × ((parse_instruction two_prefixes none [] false 1 at_start).1.written ≡ [])
parse_instruction-index_index_example =
    parse_instruction-index_index two_prefixes none [] 0 at_start (omega arith)
      (unmapped two_prefixes 0) refl refl

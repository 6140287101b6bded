-- ===== src/Disassembler.antt =====
-- libz80e/src/disassembler/disassemble.c: the operands of an instruction as text. A call of the
-- `write` function is kept as its format and its arguments; the reader of bytes is a parameter.
pub mod SourceMap
pub mod Prefixed
pub mod Plain
pub mod Instruction
pub mod Moves
pub mod Shifts
pub mod Groups
pub mod Length
pub mod Standard
pub mod Manual
pub mod Nested
mod Code
mod Tests
use Prim.Native.String.{String}
use z80e.Common.{
  ℕ, zero, suc, ◌+◌, ◌-◌, ◌*◌, ◌/◌, ◌%◌, ◌^◌, Bool, true, false, List, [], ◌∷◌, ◌++◌, Option, none,
  some, bit_and, ◌|||◌, ◌<<<◌, ◌>>>◌, ltb, leb, ◌==◌, ◌!=◌, ◌&&◌, if◌then◌else◌, switch, u8, u16,
}

-- An argument after the format; a negative `int` is its 32-bit pattern.
pub data Argument : Type 0 where
  number : ℕ → Argument
  text : String → Argument
  codes : List ℕ → Argument

pub record Written : Type 0 where
  pub format : String
  pub arguments : List Argument

-- `memory->current`, `context.prefix` and what was written. `spent` is set when a nested call had no
-- fuel left.
pub record Line : Type 0 where
  pub current : ℕ
  pub prefix : ℕ
  pub written : List Written
  pub spent : Bool

-- Code that runs on a line and returns a value.
abbrev pub Print : Type 0 → Type 0
Print A = Line → A × Line

unfoldable pub pure : {A : Type 0} → A → Print A
pure a line = (a, line)

infixl 5 ◌>>=◌ ◌>>◌
unfoldable pub ◌>>=◌ : {A B : Type 0} → Print A → (A → Print B) → Print B
◌>>=◌ m k line = let (a, line') = m line in k a line'

unfoldable pub ◌>>◌ : {A B : Type 0} → Print A → Print B → Print B
◌>>◌ m k = m >>= λ _. k

unfoldable pub write : String → List Argument → Print (Unit {0})
write format arguments line = (
  tt,
  record line { written = line.written ++ record { format = format; arguments = arguments } ∷ [] },
)

unfoldable pub get_prefix : Print ℕ
get_prefix line = (line.prefix, line)

unfoldable pub set_prefix : ℕ → Print (Unit {0})
set_prefix prefix line = (tt, record line { prefix = prefix })

unfoldable pub get_current : Print ℕ
get_current line = (line.current, line)

-- `switch (context->prefix >> 8)`.
unfoldable pub by_prefix : {A : Type 0} → ℕ → A → A → A → A
by_prefix prefix x y other =
    if prefix >>> 8 == 0xdd then x else (if prefix >>> 8 == 0xfd then y else other)

unfoldable pub parse_h_or_ih_w : Print (Unit {0})
parse_h_or_ih_w = do prefix ← get_prefix; write (by_prefix prefix "IXH" "IYH" "H") []

unfoldable pub parse_l_or_il_w : Print (Unit {0})
parse_l_or_il_w = do prefix ← get_prefix; write (by_prefix prefix "IXL" "IYL" "L") []

unfoldable pub parse_hl_or_i_r : Print (Unit {0})
parse_hl_or_i_r = do prefix ← get_prefix; write (by_prefix prefix "IX" "IY" "HL") []

unfoldable pub parse_cc : ℕ → String
parse_cc i = switch i "" ("NZ" ∷ "Z" ∷ "NC" ∷ "C" ∷ "PO" ∷ "PE" ∷ "P" ∷ "M" ∷ [])

unfoldable pub parse_rp : ℕ → Print (Unit {0})
parse_rp i =
    switch i (pure tt) (write "BC" [] ∷ write "DE" [] ∷ parse_hl_or_i_r ∷ write "SP" [] ∷ [])

unfoldable pub parse_rp2 : ℕ → Print (Unit {0})
parse_rp2 i =
    switch i (pure tt) (write "BC" [] ∷ write "DE" [] ∷ parse_hl_or_i_r ∷ write "AF" [] ∷ [])

unfoldable pub parse_rot : ℕ → Print (Unit {0})
parse_rot y = switch y (pure tt) (
    write "RLC " []
    ∷ write "RRC " []
    ∷ write "RL " []
    ∷ write "RR " []
    ∷ write "SLA " []
    ∷ write "SRA " []
    ∷ write "SLL " []
    ∷ write "SRL " []
    ∷ [])

unfoldable pub parse_im : ℕ → Print (Unit {0})
parse_im y = switch y (pure tt) (
    write "IM 0" []
    ∷ write "IM 0" []
    ∷ write "IM 1" []
    ∷ write "IM 2" []
    ∷ write "IM 0" []
    ∷ write "IM 0" []
    ∷ write "IM 1" []
    ∷ write "IM 2" []
    ∷ [])

unfoldable pub parse_alu : ℕ → Print (Unit {0})
parse_alu i = switch i (pure tt) (
    write "ADD A, " []
    ∷ write "ADC A, " []
    ∷ write "SUB " []
    ∷ write "SBC " []
    ∷ write "AND " []
    ∷ write "XOR " []
    ∷ write "OR " []
    ∷ write "CP " []
    ∷ [])

-- `y` is from 4 to 7.
unfoldable pub parse_bli : ℕ → ℕ → Print (Unit {0})
parse_bli y z =
    let row : String → String → String → String → Print (Unit {0}) = λ ld cp in_ out.
      switch z (pure tt) (write ld [] ∷ write cp [] ∷ write in_ [] ∷ write out [] ∷ []) in
    switch (y - 4) (pure tt) (
      row "LDI" "CPI" "INI" "OUTI"
      ∷ row "LDD" "CPD" "IND" "OUTD"
      ∷ row "LDIR" "CPIR" "INIR" "OTIR"
      ∷ row "LDDR" "CPDR" "INDR" "OTDR"
      ∷ [])

-- `(int8_t)byte + address` as the 32-bit pattern.
abbrev pub relative : ℕ → ℕ → ℕ
relative byte address =
    (address + (if ltb byte 0x80 then byte else byte + (2 ^ 32 - 0x100))) % 2 ^ 32

module _ (read_byte : ℕ → ℕ) where
  -- `memory->read_byte(memory, memory->current++)`.
  unfoldable pub next_byte : Print ℕ
  next_byte line = (u8 (read_byte line.current), record line { current = u16 (line.current + 1) })

  unfoldable pub parse_n : Print (Unit {0})
  parse_n = do n ← next_byte; write "0x%02X" (number n ∷ [])

  unfoldable pub parse_d : Print (Unit {0})
  parse_d = do d ← next_byte; write "%d" (number (relative d 0) ∷ [])

  unfoldable pub parse_d_relative : Print (Unit {0})
  parse_d_relative = do
    current ← get_current
    d ← next_byte
    write "0x%02X" (number (relative d (u16 (current + 1))) ∷ [])

  unfoldable pub parse_nn : Print ℕ
  parse_nn = do first ← next_byte; second ← next_byte; pure (u16 (first ||| second <<< 8))

  unfoldable pub parse_r_6 : Print (Unit {0})
  parse_r_6 = do
    prefix ← get_prefix
    by_prefix prefix (do d ← next_byte; write "(IX + 0x%X)" (number d ∷ []))
        (do d ← next_byte; write "(IY + 0x%X)" (number d ∷ [])) (write "(HL)" [])

  unfoldable pub parse_r : ℕ → Print (Unit {0})
  parse_r part = switch part (pure tt) (
      write "B" []
      ∷ write "C" []
      ∷ write "D" []
      ∷ write "E" []
      ∷ parse_h_or_ih_w
      ∷ parse_l_or_il_w
      ∷ parse_r_6
      ∷ write "A" []
      ∷ [])

  unfoldable pub parse_rw_r : ℕ → ℕ → Print (Unit {0})
  parse_rw_r target source = do
    old_prefix ← get_prefix
    set_prefix (if target != 6 then bit_and old_prefix 0xff else old_prefix)
    parse_r target
    prefix ← get_prefix
    set_prefix (if target == 6 then bit_and prefix 0xff else old_prefix)
    write ", " []
    parse_r source

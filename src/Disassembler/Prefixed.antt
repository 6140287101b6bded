-- ===== src/Disassembler/Prefixed.antt =====
-- The instructions after the prefixes 0xCB and 0xED.
use z80e.Common.{ℕ, [], ◌∷◌, leb, ◌==◌, if◌then◌else◌, switch}
use z80e.Core.Cpu.{x_of, y_of, z_of, p_of, q_of}
use z80e.Disassembler.{
  number, Print, pure, ◌>>=◌, ◌>>◌, write, parse_rp, parse_rot, parse_im, parse_bli, parse_nn,
  parse_r,
}

unfoldable pub invalid : ℕ → Print (Unit {0})
invalid opcode = write "*INVALID* 0x%X" (number opcode ∷ [])

module _ (read_byte : ℕ → ℕ) where
  unfoldable pub parse_cb : ℕ → Print (Unit {0})
  parse_cb opcode = do
    switch (x_of opcode) (pure tt) (
        parse_rot (y_of opcode)
        ∷ write "BIT 0x%X, " (number (y_of opcode) ∷ [])
        ∷ write "RES 0x%X, " (number (y_of opcode) ∷ [])
        ∷ write "SET 0x%X, " (number (y_of opcode) ∷ [])
        ∷ [])
    parse_r read_byte (z_of opcode)

  unfoldable pub parse_ed_in : ℕ → Print (Unit {0})
  parse_ed_in y =
      if y == 6
      then write "IN (C)" []
      else (do write "IN " []; parse_r read_byte y; write ", (C)" [])

  unfoldable pub parse_ed_out : ℕ → Print (Unit {0})
  parse_ed_out y =
      if y == 6 then write "OUT (C), 0" [] else (do write "OUT (C), " []; parse_r read_byte y)

  unfoldable pub parse_ed_load : ℕ → ℕ → Print (Unit {0})
  parse_ed_load q p =
      if q == 0
      then (do nn ← parse_nn read_byte; write "LD (0x%04X), " (number nn ∷ []); parse_rp p)
      else (do
        write "LD " []
        parse_rp p
        nn ← parse_nn read_byte
        write ", (0x%04X)" (number nn ∷ []))

  unfoldable pub parse_ed_misc : ℕ → Print (Unit {0})
  parse_ed_misc opcode = switch (y_of opcode) (invalid opcode) (
      write "LD I, A" []
      ∷ write "LD R, A" []
      ∷ write "LD A, I" []
      ∷ write "LD A, R" []
      ∷ write "RRD" []
      ∷ write "RLD" []
      ∷ [])

  unfoldable pub parse_ed_x1 : ℕ → Print (Unit {0})
  parse_ed_x1 opcode = switch (z_of opcode) (pure tt) (
      parse_ed_in (y_of opcode)
      ∷ parse_ed_out (y_of opcode)
      ∷ (do write (if q_of opcode == 0 then "SBC HL, " else "ADC HL, ") []; parse_rp (p_of opcode))
      ∷ parse_ed_load (q_of opcode) (p_of opcode)
      ∷ write "NEG" []
      ∷ write (if y_of opcode == 1 then "RETI" else "RETN") []
      ∷ parse_im (y_of opcode)
      ∷ parse_ed_misc opcode
      ∷ [])

  unfoldable pub parse_ed : ℕ → Print (Unit {0})
  parse_ed opcode = switch (x_of opcode) (invalid opcode) (
      invalid opcode
      ∷ parse_ed_x1 opcode
      ∷ (if leb 4 (y_of opcode) then parse_bli (y_of opcode) (z_of opcode) else invalid opcode)
      ∷ [])

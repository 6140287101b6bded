-- ===== src/Disassembler/Plain.antt =====
-- The instructions without the prefixes 0xCB and 0xED.
use Prim.Native.String.{String}
use z80e.Common.{
  ℕ, ◌+◌, ◌-◌, ◌*◌, ◌/◌, Bool, List, [], ◌∷◌, Option, none, some, ◌<<<◌, ltb, ◌==◌, ◌&&◌,
  if◌then◌else◌, switch, u16,
}
use z80e.Core.Cpu.{y_of, z_of, p_of, q_of}
use z80e.Disassembler.{
  number, text, Print, pure, ◌>>=◌, ◌>>◌, write, parse_hl_or_i_r, parse_cc, parse_rp, parse_rp2,
  parse_alu, parse_n, parse_d_relative, parse_nn, parse_r, parse_rw_r,
}

-- `if (pcall)` and the two writes.
unfoldable pub by_name :
    Option String → (String → Print (Unit {0})) → Print (Unit {0}) → Print (Unit {0})
by_name none with_name without = without
by_name (some pcall) with_name without = with_name pcall

module _ (read_byte : ℕ → ℕ) where
  unfoldable pub parse_x0_z0 : ℕ → Print (Unit {0})
  parse_x0_z0 y =
      switch y (do write "JR %s, " (text (parse_cc (y - 4)) ∷ []); parse_d_relative read_byte)
        (write "NOP" []
          ∷ write "EX AF, AF'" []
          ∷ (do write "DJNZ " []; parse_d_relative read_byte)
          ∷ (do write "JR " []; parse_d_relative read_byte)
          ∷ [])

  unfoldable pub parse_x0_z1 : ℕ → ℕ → Print (Unit {0})
  parse_x0_z1 q p =
      if q == 0
      then (do
        write "LD " []
        parse_rp p
        nn ← parse_nn read_byte
        write ", 0x%04X" (number nn ∷ []))
      else (do write "ADD " []; parse_hl_or_i_r; write ", " []; parse_rp p)

  unfoldable pub parse_x0_z2 : ℕ → ℕ → Print (Unit {0})
  parse_x0_z2 q p =
      if q == 0
      then switch p (pure tt) (
          write "LD (BC), A" []
          ∷ write "LD (DE), A" []
          ∷ (do nn ← parse_nn read_byte; write "LD (0x%04X), " (number nn ∷ []); parse_hl_or_i_r)
          ∷ (do nn ← parse_nn read_byte; write "LD (0x%04X), A" (number nn ∷ []))
          ∷ [])
      else switch p (pure tt) (
          write "LD A, (BC)" []
          ∷ write "LD A, (DE)" []
          ∷ (do
            write "LD " []
            parse_hl_or_i_r
            nn ← parse_nn read_byte
            write ", (0x%04X)" (number nn ∷ []))
          ∷ (do nn ← parse_nn read_byte; write "LD A, (0x%04X)" (number nn ∷ []))
          ∷ [])

  unfoldable pub parse_x0 : ℕ → Print (Unit {0})
  parse_x0 opcode = switch (z_of opcode) (pure tt) (
      parse_x0_z0 (y_of opcode)
      ∷ parse_x0_z1 (q_of opcode) (p_of opcode)
      ∷ parse_x0_z2 (q_of opcode) (p_of opcode)
      ∷ (do write (if q_of opcode == 0 then "INC " else "DEC ") []; parse_rp (p_of opcode))
      ∷ (do write "INC " []; parse_r read_byte (y_of opcode))
      ∷ (do write "DEC " []; parse_r read_byte (y_of opcode))
      ∷ (do write "LD " []; parse_r read_byte (y_of opcode); write ", " []; parse_n read_byte)
      ∷ write
          (switch (y_of opcode) ""
            ("RLCA" ∷ "RRCA" ∷ "RLA" ∷ "RRA" ∷ "DAA" ∷ "CPL" ∷ "SCF" ∷ "CCF" ∷ []))
          []
      ∷ [])

  unfoldable pub parse_x1 : ℕ → Print (Unit {0})
  parse_x1 opcode =
      if z_of opcode == 6 && y_of opcode == 6
      then write "HALT" []
      else (do write "LD " []; parse_rw_r read_byte (y_of opcode) (z_of opcode))

  unfoldable pub parse_x2 : ℕ → Print (Unit {0})
  parse_x2 opcode = do parse_alu (y_of opcode); parse_r read_byte (z_of opcode)

  unfoldable pub parse_x3_z1 : ℕ → ℕ → Print (Unit {0})
  parse_x3_z1 q p =
      if q == 0
      then (do write "POP " []; parse_rp2 p)
      else switch p (pure tt) (
          write "RET" []
          ∷ write "EXX" []
          ∷ (do write "JP " []; parse_hl_or_i_r)
          ∷ (do write "LD SP, " []; parse_hl_or_i_r)
          ∷ [])

  unfoldable pub parse_x3_z3 : ℕ → Print (Unit {0})
  parse_x3_z3 y = switch y (pure tt) (
      (do nn ← parse_nn read_byte; write "JP 0x%04X" (number nn ∷ []))
      ∷ pure tt
      ∷ (do write "OUT (" []; parse_n read_byte; write "), A" [])
      ∷ (do write "IN A, (" []; parse_n read_byte; write ")" [])
      ∷ (do write "EX (SP), " []; parse_hl_or_i_r)
      ∷ write "EX DE, HL" []
      ∷ write "DI" []
      ∷ write "EI" []
      ∷ [])

  -- `globals.pcalls`: the names of KnightOS system calls, when its include file was found.
  module _ (pcalls : Option (List (String × ℕ))) where
    unfoldable pub find_pcall : ℕ → List (String × ℕ) → Option String
    find_pcall addr [] = none
    find_pcall addr ((name, item) ∷ items) =
        let rest = find_pcall addr items in if item == addr then some name else rest

    -- An optimized call of page 0.
    abbrev pub is_optimized : ℕ → Bool
    is_optimized addr = ltb addr 0x4000 && ltb (0x4000 - 256 * 3) addr

    unfoldable pub pcall_name : ℕ → Option String
    pcall_name addr =
        let addr' =
          if is_optimized addr then u16 (u16 ((0x4000 - addr) / 3 + 0xffff) <<< 8) else addr in
        elim pcalls [ none ↦ none | some items ↦ find_pcall addr' items ]

    unfoldable pub optimized_name : ℕ → Option String
    optimized_name nn = if is_optimized nn then pcall_name nn else none

    unfoldable pub parse_x3_z4 : ℕ → Print (Unit {0})
    parse_x3_z4 y = do
      nn ← parse_nn read_byte
      by_name (optimized_name nn)
          (λ pcall. write "PCALL %s, %s" (text (parse_cc y) ∷ text pcall ∷ []))
          (write "CALL %s, 0x%04X" (text (parse_cc y) ∷ number nn ∷ []))

    unfoldable pub parse_call : Print (Unit {0})
    parse_call = do
      nn ← parse_nn read_byte
      by_name (optimized_name nn) (λ pcall. write "PCALL %s" (text pcall ∷ []))
          (write "CALL 0x%04X" (number nn ∷ []))

    unfoldable pub parse_x3_z5 : ℕ → ℕ → Print (Unit {0})
    parse_x3_z5 q p =
        if q == 0 then (do write "PUSH " []; parse_rp2 p) else switch p (pure tt) (parse_call ∷ [])

    -- `again` is the nested call of `parse_instruction`.
    unfoldable pub parse_rst : Bool → Print (Unit {0}) → ℕ → Print (Unit {0})
    parse_rst knightos again y =
        if knightos && y * 8 == 0x20
        then (do
          nn ← parse_nn read_byte
          by_name (pcall_name nn) (λ pcall. write "PCALL %s" (text pcall ∷ []))
              (write "PCALL 0x%04X" (number nn ∷ [])))
        else (if knightos && y * 8 == 0x08
            then (do write "K" []; again)
            else write "RST 0x%X" (number (y * 8) ∷ []))

    unfoldable pub parse_x3 : Bool → Print (Unit {0}) → ℕ → Print (Unit {0})
    parse_x3 knightos again opcode = switch (z_of opcode) (pure tt) (
        write "RET %s" (text (parse_cc (y_of opcode)) ∷ [])
        ∷ parse_x3_z1 (q_of opcode) (p_of opcode)
        ∷ (do
          write "JP %s" (text (parse_cc (y_of opcode)) ∷ [])
          nn ← parse_nn read_byte
          write ", 0x%04X" (number nn ∷ []))
        ∷ parse_x3_z3 (y_of opcode)
        ∷ parse_x3_z4 (y_of opcode)
        ∷ parse_x3_z5 (q_of opcode) (p_of opcode)
        ∷ (do parse_alu (y_of opcode); parse_n read_byte)
        ∷ parse_rst knightos again (y_of opcode)
        ∷ [])

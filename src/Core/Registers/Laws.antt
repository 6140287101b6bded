-- ===== src/Core/Registers/Laws.antt =====
-- The exchanges of the register file undo themselves.
use z80e.Common.{◌≡◌, arith}
use z80e.Core.Registers.{Registers, ex_af_af, ex_de_hl, exx, set_af, set_bc, set_de, set_hl}
use z80e.Core.Cpu.Invariant.Pure.{RegistersFit}

-- On registers within their widths, each of `EX AF, AF'`, `EX DE, HL` and `EXX` undoes itself.
pub exchanges_undo :
    (reg : Registers)
    → RegistersFit reg
    → (ex_af_af (ex_af_af reg) ≡ reg) × (ex_de_hl (ex_de_hl reg) ≡ reg) × (exx (exx reg) ≡ reg)
unfolding ex_af_af ex_de_hl exx set_af set_bc set_de set_hl
exchanges_undo reg h = (ground arith, ground arith, ground arith)

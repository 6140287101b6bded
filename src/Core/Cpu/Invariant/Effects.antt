-- ===== src/Core/Cpu/Invariant/Effects.antt =====
-- Each function on the register file keeps it within its widths.
use z80e.Common.{
  ℕ, ◌^◌, ◌<◌, arith, Bool, true, false, switch, switch-All, All, all_nil, all_cons, List, ◌∷◌, u8,
}
use z80e.Core.Flags.{mask_c, mask_n, mask_3, mask_h, mask_5, mask_z}
use z80e.Core.Registers.{
  Registers, set_af, set_bc, set_de, set_hl, set_ix, set_iy, set_flags_c, set_flags_n, set_flags_3,
  set_flags_h, set_flags_5, set_flags_z, ex_af_af, ex_de_hl, exx,
}
use z80e.Core.Cpu.Alu.{
  daa, alu, alu_add, alu_adc, alu_sub, alu_sbc, alu_and, alu_xor, alu_or, alu_cp,
}
use z80e.Core.Cpu.Rotate.{rotated_flags}
use z80e.Core.Cpu.Block.{load_flags, compare_flags, io_flags}
use z80e.Core.Cpu.Instructions.Cb.{bit_flags}
use z80e.Core.Cpu.Instructions.Ed.{in_flags, sbc_hl, adc_hl, neg, load_a_flags, nibble_flags}
use z80e.Core.Cpu.Instructions.X0.{
  add_hl_flags, inc_flags, dec_flags, set_undef, rotate_a, rlca, rrca, rla, rra, cpl, scf, ccf,
  accumulator_op,
}
use z80e.Core.Cpu.Invariant.Pure.{RegistersFit, IsByte, IsByte-and, IsByte-set_flag, flag_bytes}

-- A function on the register file that keeps it within its widths.
pub record Fitting (g : Registers → Registers) : Type 0 where
  pub fit : (reg : Registers) → RegistersFit reg → RegistersFit (g reg)

module _ (reg : Registers) (h : RegistersFit reg) where
  pub with_f : (f' : ℕ) → IsByte f' → RegistersFit (record reg { f = f' })
  with_f f' hf = omega arith

  with_af : (a' f' : ℕ) → a' < 256 → IsByte f' → RegistersFit (record reg { a = a'; f = f' })
  with_af a' f' ha hf = omega arith

  set_bc_fit : (v : ℕ) → RegistersFit (set_bc v reg)
  unfolding set_bc
  set_bc_fit v = omega arith

  set_hl_fit : (v : ℕ) → RegistersFit (set_hl v reg)
  unfolding set_hl
  set_hl_fit v = omega arith

pub Fitting-set_af : (v : ℕ) → Fitting (set_af v)
unfolding set_af
Fitting-set_af v = record { fit = λ reg h. omega arith }

pub Fitting-set_bc : (v : ℕ) → Fitting (set_bc v)
Fitting-set_bc v = record { fit = λ reg h. set_bc_fit reg h v }

pub Fitting-set_de : (v : ℕ) → Fitting (set_de v)
unfolding set_de
Fitting-set_de v = record { fit = λ reg h. omega arith }

pub Fitting-set_hl : (v : ℕ) → Fitting (set_hl v)
Fitting-set_hl v = record { fit = λ reg h. set_hl_fit reg h v }

pub Fitting-set_ix : (v : ℕ) → Fitting (set_ix v)
unfolding set_ix
Fitting-set_ix v = record { fit = λ reg h. omega arith }

pub Fitting-set_iy : (v : ℕ) → Fitting (set_iy v)
unfolding set_iy
Fitting-set_iy v = record { fit = λ reg h. omega arith }

pub Fitting-ex_af_af : Fitting ex_af_af
unfolding ex_af_af set_af
Fitting-ex_af_af = record { fit = λ reg h. omega arith }

pub Fitting-ex_de_hl : Fitting ex_de_hl
unfolding ex_de_hl set_de set_hl
Fitting-ex_de_hl = record { fit = λ reg h. omega arith }

pub Fitting-exx : Fitting exx
unfolding exx set_hl set_de set_bc
Fitting-exx = record { fit = λ reg h. omega arith }

pub Fitting-alu_add : (v : ℕ) → Fitting (alu_add v)
unfolding alu_add
Fitting-alu_add v = record {
  fit = λ reg h. with_af reg h _ _ (omega arith) (search flag_bytes depth 12);
}

pub Fitting-alu_adc : (v : ℕ) → Fitting (alu_adc v)
unfolding alu_adc
Fitting-alu_adc v = record {
  fit = λ reg h. with_af reg h _ _ (omega arith) (search flag_bytes depth 12);
}

pub Fitting-alu_sub : (v : ℕ) → Fitting (alu_sub v)
unfolding alu_sub
Fitting-alu_sub v = record {
  fit = λ reg h. with_af reg h _ _ (omega arith) (search flag_bytes depth 12);
}

pub Fitting-alu_sbc : (v : ℕ) → Fitting (alu_sbc v)
unfolding alu_sbc
Fitting-alu_sbc v = record {
  fit = λ reg h. with_af reg h _ _ (omega arith) (search flag_bytes depth 12);
}

pub Fitting-alu_and : (v : ℕ) → Fitting (alu_and v)
unfolding alu_and
Fitting-alu_and v = record {
  fit = λ reg h. with_af reg h _ _ (omega arith) (search flag_bytes depth 12);
}

pub Fitting-alu_xor : (v : ℕ) → Fitting (alu_xor v)
unfolding alu_xor
Fitting-alu_xor v = record {
  fit = λ reg h. with_af reg h _ _ (omega arith) (search flag_bytes depth 12);
}

pub Fitting-alu_or : (v : ℕ) → Fitting (alu_or v)
unfolding alu_or
Fitting-alu_or v = record {
  fit = λ reg h. with_af reg h _ _ (omega arith) (search flag_bytes depth 12);
}

pub Fitting-alu_cp : (v : ℕ) → Fitting (alu_cp v)
unfolding alu_cp
Fitting-alu_cp v = record { fit = λ reg h. with_f reg h _ (search flag_bytes depth 12) }

pub Fitting-daa : Fitting daa
unfolding daa
Fitting-daa = record {
  fit = λ reg h. with_af reg h _ _ (ground arith) (search flag_bytes depth 12);
}

pub Fitting-neg : Fitting neg
unfolding neg
Fitting-neg = record { fit = λ reg h. with_af reg h _ _ (omega arith) (search flag_bytes depth 12) }

pub Fitting-nibble_flags : (v : ℕ) → Fitting (nibble_flags v)
unfolding nibble_flags
Fitting-nibble_flags v = record {
  fit = λ reg h. with_af reg h _ _ (omega arith) (search flag_bytes depth 12);
}

pub Fitting-in_flags : (v : ℕ) → Fitting (in_flags v)
unfolding in_flags
Fitting-in_flags v = record { fit = λ reg h. with_f reg h _ (search flag_bytes depth 12) }

pub Fitting-bit_flags : (y : ℕ) (z : ℕ) (old : ℕ) → Fitting (bit_flags y z old)
unfolding bit_flags
Fitting-bit_flags y z old = record { fit = λ reg h. with_f reg h _ (search flag_bytes depth 12) }

pub Fitting-inc_flags : (old : ℕ) (new : ℕ) → Fitting (inc_flags old new)
unfolding inc_flags
Fitting-inc_flags old new = record { fit = λ reg h. with_f reg h _ (search flag_bytes depth 12) }

pub Fitting-dec_flags : (old : ℕ) (new : ℕ) → Fitting (dec_flags old new)
unfolding dec_flags
Fitting-dec_flags old new = record { fit = λ reg h. with_f reg h _ (search flag_bytes depth 12) }

-- The same of one value.
record Fits (reg' : Registers) : Type 0 where
  fits : RegistersFit reg'

Fits-switch :
    (i : ℕ) (reg : Registers) (xs : List Registers)
    → RegistersFit reg
    → All Fits xs
    → RegistersFit (switch i reg xs)
Fits-switch i reg xs h all = (switch-All Fits i reg xs (record { fits = h }) all).fits

-- One case more.
case :
    {reg : Registers} {g : Registers → Registers} {xs : List Registers}
    → RegistersFit reg
    → Fitting g
    → All Fits xs
    → All Fits (g reg ∷ xs)
case {reg} h p all = all_cons (record { fits = p.fit reg h }) all

pub Fitting-alu : (i v : ℕ) → Fitting (alu i v)
unfolding alu
Fitting-alu i v = record {
  fit = λ reg h. Fits-switch i reg _ h (
      case h (Fitting-alu_add v) (
        case h (Fitting-alu_adc v) (
          case h (Fitting-alu_sub v) (
            case h (Fitting-alu_sbc v) (
              case h (Fitting-alu_and v) (
                case h (Fitting-alu_xor v)
                  (case h (Fitting-alu_or v) (case h (Fitting-alu_cp v) all_nil))))))));
}

-- Compositions.
pub Fitting-set_flags_c : (t : Bool) → Fitting (set_flags_c t)
unfolding set_flags_c
Fitting-set_flags_c t = record {
  fit = λ reg h. with_f reg h _ (IsByte-set_flag mask_c t reg.f (omega arith) h.f);
}

pub Fitting-set_flags_n : (t : Bool) → Fitting (set_flags_n t)
unfolding set_flags_n
Fitting-set_flags_n t = record {
  fit = λ reg h. with_f reg h _ (IsByte-set_flag mask_n t reg.f (omega arith) h.f);
}

pub Fitting-set_flags_3 : (t : Bool) → Fitting (set_flags_3 t)
unfolding set_flags_3
Fitting-set_flags_3 t = record {
  fit = λ reg h. with_f reg h _ (IsByte-set_flag mask_3 t reg.f (omega arith) h.f);
}

pub Fitting-set_flags_h : (t : Bool) → Fitting (set_flags_h t)
unfolding set_flags_h
Fitting-set_flags_h t = record {
  fit = λ reg h. with_f reg h _ (IsByte-set_flag mask_h t reg.f (omega arith) h.f);
}

pub Fitting-set_flags_5 : (t : Bool) → Fitting (set_flags_5 t)
unfolding set_flags_5
Fitting-set_flags_5 t = record {
  fit = λ reg h. with_f reg h _ (IsByte-set_flag mask_5 t reg.f (omega arith) h.f);
}

pub Fitting-set_flags_z : (t : Bool) → Fitting (set_flags_z t)
unfolding set_flags_z
Fitting-set_flags_z t = record {
  fit = λ reg h. with_f reg h _ (IsByte-set_flag mask_z t reg.f (omega arith) h.f);
}

with_a : (reg : Registers) (a' : ℕ) → RegistersFit reg → RegistersFit (record reg { a = u8 a' })
with_a reg a' h = omega arith

pub Fitting-set_undef : Fitting set_undef
unfolding set_undef
Fitting-set_undef = record {
  fit = λ reg h. (Fitting-set_flags_5 _).fit _ ((Fitting-set_flags_3 _).fit reg h);
}

pub Fitting-rotate_a : (out : Bool) (a' : ℕ) → Fitting (rotate_a out a')
unfolding rotate_a
Fitting-rotate_a out a' = record {
  fit = λ reg h. Fitting-set_undef.fit _ (
      (Fitting-set_flags_n false).fit _ (
        (Fitting-set_flags_h false).fit _
          (with_a (set_flags_c out reg) a' ((Fitting-set_flags_c out).fit reg h))));
}

pub Fitting-cpl : Fitting cpl
unfolding cpl
Fitting-cpl = record {
  fit = λ reg h.
      Fitting-set_undef.fit _
        ((Fitting-set_flags_n true).fit _ ((Fitting-set_flags_h true).fit _ (omega arith)));
}

pub Fitting-scf : Fitting scf
unfolding scf
Fitting-scf = record {
  fit = λ reg h. Fitting-set_undef.fit _ (
      (Fitting-set_flags_n false).fit _
        ((Fitting-set_flags_h false).fit _ ((Fitting-set_flags_c true).fit reg h)));
}

pub Fitting-ccf : Fitting ccf
unfolding ccf
Fitting-ccf = record {
  fit = λ reg h. Fitting-set_undef.fit _ (
      (Fitting-set_flags_n false).fit _
        ((Fitting-set_flags_c _).fit _ ((Fitting-set_flags_h _).fit reg h)));
}

pub Fitting-rlca : Fitting rlca
unfolding rlca
Fitting-rlca = record { fit = λ reg h. (Fitting-rotate_a _ _).fit reg h }

pub Fitting-rrca : Fitting rrca
unfolding rrca
Fitting-rrca = record { fit = λ reg h. (Fitting-rotate_a _ _).fit reg h }

pub Fitting-rla : Fitting rla
unfolding rla
Fitting-rla = record { fit = λ reg h. (Fitting-rotate_a _ _).fit reg h }

pub Fitting-rra : Fitting rra
unfolding rra
Fitting-rra = record { fit = λ reg h. (Fitting-rotate_a _ _).fit reg h }

pub Fitting-accumulator_op : (y : ℕ) → Fitting (accumulator_op y)
unfolding accumulator_op
Fitting-accumulator_op y = record {
  fit = λ reg h. Fits-switch y reg _ h (
      case h Fitting-rlca (
        case h Fitting-rrca (
          case h Fitting-rla (
            case h Fitting-rra (
              case h Fitting-daa
                (case h Fitting-cpl (case h Fitting-scf (case h Fitting-ccf all_nil))))))));
}

-- Transfers, searches, ports and 16-bit arithmetic.
pub Fitting-load_flags : (old : ℕ) → Fitting (load_flags old)
unfolding load_flags
Fitting-load_flags old = record {
  fit = λ reg h.
      with_f _ (set_bc_fit reg h _) _ (search (flag_bytes, IsByte-and reg.f _ h.f) depth 12);
}

pub Fitting-compare_flags : (old : ℕ) → Fitting (compare_flags old)
unfolding compare_flags
Fitting-compare_flags old = record {
  fit = λ reg h. with_f _ (set_bc_fit reg h _) _ (search flag_bytes depth 12);
}

with_b : (reg : Registers) (b' : ℕ) → RegistersFit reg → RegistersFit (record reg { b = u8 b' })
with_b reg b' h = omega arith

pub Fitting-io_flags : (up : Bool) → Fitting (io_flags up)
unfolding io_flags
Fitting-io_flags up = record {
  fit = λ reg h.
      (Fitting-set_flags_n true).fit _
        ((Fitting-set_flags_z _).fit _ (with_b _ _ (set_hl_fit reg h _)));
}

with_wz_f :
    (reg : Registers) (wz' f' : ℕ)
    → RegistersFit reg
    → wz' < 2 ^ 16
    → IsByte f'
    → RegistersFit (record reg { wz = wz'; f = f' })
with_wz_f reg wz' f' h hw hf = omega arith

pub Fitting-sbc_hl : (op16 : ℕ) → Fitting (sbc_hl op16)
unfolding sbc_hl
Fitting-sbc_hl op16 = record {
  fit = λ reg h. with_wz_f _ _ _ (set_hl_fit reg h _) (omega arith) (search flag_bytes depth 12);
}

pub Fitting-adc_hl : (op16 : ℕ) → Fitting (adc_hl op16)
unfolding adc_hl
Fitting-adc_hl op16 = record {
  fit = λ reg h. with_wz_f _ _ _ (set_hl_fit reg h _) (omega arith) (search flag_bytes depth 12);
}

pub Fitting-add_hl_flags : (old16 op16 new16 : ℕ) → Fitting (add_hl_flags old16 op16 new16)
unfolding add_hl_flags
Fitting-add_hl_flags old16 op16 new16 = record {
  fit = λ reg h. with_wz_f reg _ _ h (omega arith) (search flag_bytes depth 12);
}

pub Fitting-load_a_flags :
    (v : ℕ) (iff2 : Bool) (reg : Registers)
    → v < 256
    → RegistersFit reg
    → RegistersFit (load_a_flags v iff2 reg)
unfolding load_a_flags
Fitting-load_a_flags v iff2 reg small h = with_af reg h _ _ small (search flag_bytes depth 12)

pub IsByte-rotated_flags : (out : Bool) (r : ℕ) → IsByte (rotated_flags out r)
unfolding rotated_flags
IsByte-rotated_flags out r = search flag_bytes depth 12

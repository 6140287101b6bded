-- ===== src/Core/Registers.antt =====
-- `z80registers_t` of libz80e/include/z80e/core/registers.h, and the exchanges of
-- libz80e/src/core/registers.c. A C union of a word with its two bytes is kept as the bytes; the
-- word is read and written through them.
pub mod Laws
use z80e.Common.{ℕ, ◌+◌, ◌-◌, ◌*◌, ◌/◌, ◌%◌, Bool, bit_and, ◌|||◌, bit, to_ℕ, u16}
use z80e.Core.Flags.{mask_z, mask_5, mask_h, mask_3, mask_n, mask_c}

pub record Registers : Type 0 where
  pub a : ℕ
  pub f : ℕ
  pub b : ℕ
  pub c : ℕ
  pub d : ℕ
  pub e : ℕ
  pub h : ℕ
  pub l : ℕ
  pub af' : ℕ
  pub bc' : ℕ
  pub de' : ℕ
  pub hl' : ℕ
  pub pc : ℕ
  pub sp : ℕ
  pub ixh : ℕ
  pub ixl : ℕ
  pub iyh : ℕ
  pub iyl : ℕ
  pub i : ℕ
  pub r : ℕ
  pub wz : ℕ

-- The words of the unions.
abbrev pub word : ℕ → ℕ → ℕ
word hi lo = hi * 256 + lo

abbrev pub high : ℕ → ℕ
high v = u16 v / 256

abbrev pub low : ℕ → ℕ
low v = v % 256

abbrev pub af : Registers → ℕ
af reg = word reg.a reg.f

abbrev pub bc : Registers → ℕ
bc reg = word reg.b reg.c

abbrev pub de : Registers → ℕ
de reg = word reg.d reg.e

abbrev pub hl : Registers → ℕ
hl reg = word reg.h reg.l

abbrev pub ix : Registers → ℕ
ix reg = word reg.ixh reg.ixl

abbrev pub iy : Registers → ℕ
iy reg = word reg.iyh reg.iyl

unfoldable pub set_af : ℕ → Registers → Registers
set_af v reg = record reg { a = high v; f = low v }

unfoldable pub set_bc : ℕ → Registers → Registers
set_bc v reg = record reg { b = high v; c = low v }

unfoldable pub set_de : ℕ → Registers → Registers
set_de v reg = record reg { d = high v; e = low v }

unfoldable pub set_hl : ℕ → Registers → Registers
set_hl v reg = record reg { h = high v; l = low v }

unfoldable pub set_ix : ℕ → Registers → Registers
set_ix v reg = record reg { ixh = high v; ixl = low v }

unfoldable pub set_iy : ℕ → Registers → Registers
set_iy v reg = record reg { iyh = high v; iyl = low v }

-- The bit-fields `flags.C` to `flags.S` of `F`.
abbrev pub flags_c : Registers → Bool
flags_c reg = bit 0 reg.f

abbrev pub flags_n : Registers → Bool
flags_n reg = bit 1 reg.f

abbrev pub flags_pv : Registers → Bool
flags_pv reg = bit 2 reg.f

abbrev pub flags_3 : Registers → Bool
flags_3 reg = bit 3 reg.f

abbrev pub flags_h : Registers → Bool
flags_h reg = bit 4 reg.f

abbrev pub flags_5 : Registers → Bool
flags_5 reg = bit 5 reg.f

abbrev pub flags_z : Registers → Bool
flags_z reg = bit 6 reg.f

abbrev pub flags_s : Registers → Bool
flags_s reg = bit 7 reg.f

-- A store into a bit-field leaves the other bits of `F`.
unfoldable pub set_flag : ℕ → Bool → ℕ → ℕ
set_flag mask v f = bit_and f (255 - mask) ||| to_ℕ v * mask

unfoldable pub set_flags_c : Bool → Registers → Registers
set_flags_c v reg = record reg { f = set_flag mask_c v reg.f }

unfoldable pub set_flags_n : Bool → Registers → Registers
set_flags_n v reg = record reg { f = set_flag mask_n v reg.f }

unfoldable pub set_flags_3 : Bool → Registers → Registers
set_flags_3 v reg = record reg { f = set_flag mask_3 v reg.f }

unfoldable pub set_flags_h : Bool → Registers → Registers
set_flags_h v reg = record reg { f = set_flag mask_h v reg.f }

unfoldable pub set_flags_5 : Bool → Registers → Registers
set_flags_5 v reg = record reg { f = set_flag mask_5 v reg.f }

unfoldable pub set_flags_z : Bool → Registers → Registers
set_flags_z v reg = record reg { f = set_flag mask_z v reg.f }

unfoldable pub ex_af_af : Registers → Registers
ex_af_af reg = let temp = reg.af' in set_af temp (record reg { af' = af reg })

unfoldable pub ex_de_hl : Registers → Registers
ex_de_hl reg = let temp = hl reg in set_de temp (set_hl (de reg) reg)

unfoldable pub exx : Registers → Registers
exx reg =
    let reg₁ = set_hl reg.hl' (record reg { hl' = hl reg }) in
    let reg₂ = set_de reg₁.de' (record reg₁ { de' = de reg₁ }) in
    set_bc reg₂.bc' (record reg₂ { bc' = bc reg₂ })

-- ===== src/Core/Cpu/Named/Laws.antt =====
-- What is written to a register by its name is read back by it.
use z80e.Common.{
  ℕ, ◌^◌, ◌<◌, ◌≡◌, refl, arith, Bool, true, false, List, [], ◌∷◌, ◌&&◌, Bool-cases, inl, inr,
  to_bool, bit_and, u8, if◌then◌else◌,
}
use z80e.Core.Registers.{Registers, set_af, set_bc, set_de, set_hl}
use z80e.Core.Cpu.Invariant.Pure.{RegistersFit}
use z80e.Hooks.{RegisterHook, hook_on_register}
use z80e.Core.Cpu.Named.{
  Register, reg_a, reg_f, reg_af, reg_af', reg_b, reg_c, reg_bc, reg_bc', reg_d, reg_e, reg_de,
  reg_de', reg_h, reg_l, reg_hl, reg_hl', reg_i, reg_r, reg_ixh, reg_ixl, reg_iyh, reg_iyl,
  register_mask, word_at, with_word, byte_at, with_byte, cpu_read_register_word,
  cpu_read_register_byte, cpu_write_register_word, cpu_write_register_byte,
}

-- The pairs and the bytes that the accesses know.
abbrev pub is_pair : Register → Bool
is_pair reg_af = true
is_pair reg_af' = true
is_pair reg_bc = true
is_pair reg_bc' = true
is_pair reg_de = true
is_pair reg_de' = true
is_pair reg_hl = true
is_pair reg_hl' = true
is_pair _ = false

abbrev pub is_byte : Register → Bool
is_byte reg_a = true
is_byte reg_f = true
is_byte reg_b = true
is_byte reg_c = true
is_byte reg_d = true
is_byte reg_e = true
is_byte reg_h = true
is_byte reg_l = true
is_byte reg_i = true
is_byte reg_r = true
is_byte reg_ixh = true
is_byte reg_ixl = true
is_byte reg_iyh = true
is_byte reg_iyl = true
is_byte _ = false

word_at-with_word :
    (r : Register) (v : ℕ) (reg : Registers)
    → v < 2 ^ 16
    → word_at r (with_word r v reg) ≡ (if is_pair r then v else 0xffff)
unfolding word_at with_word set_af set_bc set_de set_hl
word_at-with_word reg_af v reg h = omega arith
word_at-with_word reg_af' v reg h = refl
word_at-with_word reg_bc v reg h = omega arith
word_at-with_word reg_bc' v reg h = refl
word_at-with_word reg_de v reg h = omega arith
word_at-with_word reg_de' v reg h = refl
word_at-with_word reg_hl v reg h = omega arith
word_at-with_word reg_hl' v reg h = refl
word_at-with_word _ v reg h = refl

with_word-RegistersFit :
    (r : Register) (v : ℕ) (reg : Registers)
    → v < 2 ^ 16
    → RegistersFit reg
    → RegistersFit (with_word r v reg)
unfolding with_word set_af set_bc set_de set_hl
with_word-RegistersFit reg_af v reg h fit = omega arith
with_word-RegistersFit reg_af' v reg h fit = omega arith
with_word-RegistersFit reg_bc v reg h fit = omega arith
with_word-RegistersFit reg_bc' v reg h fit = omega arith
with_word-RegistersFit reg_de v reg h fit = omega arith
with_word-RegistersFit reg_de' v reg h fit = omega arith
with_word-RegistersFit reg_hl v reg h fit = omega arith
with_word-RegistersFit reg_hl' v reg h fit = omega arith
with_word-RegistersFit _ v reg h fit = fit

byte_at-with_byte :
    (r : Register) (v : ℕ) (reg : Registers)
    → byte_at r (with_byte r v reg) ≡ (if is_byte r then v else 0xff)
unfolding byte_at with_byte
byte_at-with_byte reg_a v reg = refl
byte_at-with_byte reg_f v reg = refl
byte_at-with_byte reg_b v reg = refl
byte_at-with_byte reg_c v reg = refl
byte_at-with_byte reg_d v reg = refl
byte_at-with_byte reg_e v reg = refl
byte_at-with_byte reg_h v reg = refl
byte_at-with_byte reg_l v reg = refl
byte_at-with_byte reg_i v reg = refl
byte_at-with_byte reg_r v reg = refl
byte_at-with_byte reg_ixh v reg = refl
byte_at-with_byte reg_ixl v reg = refl
byte_at-with_byte reg_iyh v reg = refl
byte_at-with_byte reg_iyl v reg = refl
byte_at-with_byte _ v reg = refl

with_byte-RegistersFit :
    (r : Register) (v : ℕ) (reg : Registers)
    → v < 2 ^ 8
    → RegistersFit reg
    → RegistersFit (with_byte r v reg)
unfolding with_byte
with_byte-RegistersFit reg_a v reg h fit = omega arith
with_byte-RegistersFit reg_f v reg h fit = omega arith
with_byte-RegistersFit reg_b v reg h fit = omega arith
with_byte-RegistersFit reg_c v reg h fit = omega arith
with_byte-RegistersFit reg_d v reg h fit = omega arith
with_byte-RegistersFit reg_e v reg h fit = omega arith
with_byte-RegistersFit reg_h v reg h fit = omega arith
with_byte-RegistersFit reg_l v reg h fit = omega arith
with_byte-RegistersFit reg_i v reg h fit = omega arith
with_byte-RegistersFit reg_r v reg h fit = omega arith
with_byte-RegistersFit reg_ixh v reg h fit = omega arith
with_byte-RegistersFit reg_ixl v reg h fit = omega arith
with_byte-RegistersFit reg_iyh v reg h fit = omega arith
with_byte-RegistersFit reg_iyl v reg h fit = omega arith
with_byte-RegistersFit _ v reg h fit = fit

module _ {W : Type 0} where
  hook_on_register-lt :
      (cbs : List (RegisterHook W)) (w : W) (flags value : ℕ)
      → value < 2 ^ 16
      → (hook_on_register cbs w flags value).0 < 2 ^ 16
  unfolding hook_on_register
  hook_on_register-lt [] w flags value h = h
  hook_on_register-lt (cb ∷ cbs) w flags value h =
      elim (Bool-cases (cb.in_use && to_bool (bit_and cb.registers flags))) [
        | inl on ↦ rw on (hook_on_register-lt cbs _ flags _ (omega arith))
        | inr off ↦ rw off (hook_on_register-lt cbs w flags value h)
      ]

  -- After a word is written to a register by its name, a read by the same name gives the read hooks
  -- the word that the write hooks made of it when the register is one of the eight pairs, and -1
  -- otherwise; registers within their widths stay so.
  pub read_register_word-write :
      (on_read on_write : List (RegisterHook W)) (w w' : W) (reg : Registers) (r : Register)
      (value : ℕ)
      → value < 2 ^ 16
      → RegistersFit reg
      → let (stored, reg', _) = cpu_write_register_word on_write w reg r value in
        (cpu_read_register_word on_read w' reg' r
          ≡ hook_on_register on_read w' (register_mask r) (if is_pair r then stored else 0xffff))
        × RegistersFit reg'
  unfolding cpu_read_register_word cpu_write_register_word
  read_register_word-write on_read on_write w w' reg r value h fit =
      let small = hook_on_register-lt on_write w (register_mask r) value h in
      (rw (word_at-with_word r _ reg small) refl, with_word-RegistersFit r _ reg small fit)

  -- After a byte is written to a register by its name, a read by the same name gives the low byte
  -- of what the read hooks make of the byte stored, or of -1 when the register is none of the
  -- fourteen known; registers within their widths stay so.
  pub read_register_byte-write :
      (on_read on_write : List (RegisterHook W)) (w w' : W) (reg : Registers) (r : Register)
      (value : ℕ)
      → RegistersFit reg
      → let (stored, reg', _) = cpu_write_register_byte on_write w reg r value in
        ((cpu_read_register_byte on_read w' reg' r).0
          ≡ u8
              (hook_on_register on_read w'
                (register_mask r)
                (if is_byte r then stored else 0xff)).0)
        × RegistersFit reg'
  unfolding cpu_read_register_byte cpu_write_register_byte
  read_register_byte-write on_read on_write w w' reg r value fit =
      (rw (byte_at-with_byte r _ reg) refl, with_byte-RegistersFit r _ reg (omega arith) fit)

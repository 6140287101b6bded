-- ===== src/Disassembler/Shifts.antt =====
-- `parse_rw_r`, which drops the index prefix for one of its two operands.
use z80e.Common.{
  ℕ, ◌+◌, ◌^◌, ◌<◌, ◌≡◌, refl, ap, arith, Bool, true, false, ◌&&◌, [], ◌∷◌, ◌==◌, ◌!=◌,
  if◌then◌else◌, inl, inr, Bool-cases, switch, u16, bit_and,
}
use z80e.Core.Cpu.{y_of, z_of}
use z80e.Disassembler.{Line, Print, ◌>>=◌, ◌>>◌, write, get_prefix, set_prefix, parse_r, parse_rw_r}
use z80e.Disassembler.Plain.{parse_x1}
use z80e.Disassembler.Moves.{Moves, Moves-write, Moves-parse_r, is_index}

-- From every line with the prefix `p`, the code moves on by `n` bytes and leaves the prefix `q`.
pub record Shifts {A : Type 0} (p q : ℕ) (m : Print A) (n : ℕ) : Type 0 where
  pub shifts :
      (line : Line)
      → line.prefix ≡ p
      → line.current < 2 ^ 16
      → ((m line).1.current ≡ u16 (line.current + n)) × ((m line).1.prefix ≡ q)

pub Shifts-Moves : {A : Type 0} {p : ℕ} {m : Print A} {n : ℕ} → Moves p m n → Shifts p p m n
Shifts-Moves h = record { shifts = h.moves }

Shifts-set_prefix : (p q : ℕ) → Shifts p q (set_prefix q) 0
unfolding set_prefix
Shifts-set_prefix p q = record { shifts = λ line same fits. (omega arith, refl) }

Shifts-then :
    {A B : Type 0} {p q r : ℕ} (m : Print A) (k : Print B) (a b : ℕ)
    → Shifts p q m a
    → Shifts q r k b
    → Shifts p r (m >> k) (a + b)
unfolding ◌>>◌ ◌>>=◌
Shifts-then m k a b h g = record {
  shifts = λ line same fits.
      let (there, same') = h.shifts line same fits in
      let (on, kept) = g.shifts (m line).1 same' (omega arith) in (omega arith, kept);
}

Shifts-get :
    {A : Type 0} {p q : ℕ} (k : ℕ → Print A) (n : ℕ)
    → Shifts p q (k p) n
    → Shifts p q (get_prefix >>= k) n
unfolding get_prefix ◌>>=◌
Shifts-get {p} k n h = record {
  shifts = λ line same fits.
      let known : k line.prefix ≡ k p = ap k same in
      rw (known, ◌>>=◌, get_prefix) (h.shifts line same fits);
}

-- The bytes of the operands of `LD r, r`.
abbrev pub size_r : Bool → ℕ → ℕ
size_r index part = switch part 0 (0 ∷ 0 ∷ 0 ∷ 0 ∷ 0 ∷ 0 ∷ (if index then 1 else 0) ∷ 0 ∷ [])

abbrev pub size_rw : Bool → ℕ → ℕ → ℕ
size_rw index target source =
    if target == 6
    then size_r index 6 + size_r false source
    else size_r false target + size_r index source

Shifts-same :
    {A : Type 0} {p q : ℕ} {m : Print A} (a b : ℕ) → a ≡ b → Shifts p q m a → Shifts p q m b
Shifts-same a b same h = rw same at h

-- The comma and the second operand.
Shifts-second :
    (read_byte : ℕ → ℕ) (p source : ℕ)
    → Shifts p p (write ", " [] >> parse_r read_byte source) (0 + size_r (is_index p) source)
Shifts-second read_byte p source =
    Shifts-then _ _ 0 _ (Shifts-Moves (Moves-write ", " []))
      (Shifts-Moves (Moves-parse_r read_byte source))

module _ (read_byte : ℕ → ℕ) (prefix : ℕ) (low : bit_and prefix 0xff ≡ 0) where
  Shifts-parse_rw_r :
      (target source : ℕ)
      → Shifts prefix
          (if target == 6 then 0 else prefix)
          (parse_rw_r read_byte target source)
          (size_rw (is_index prefix) target source)
  unfolding parse_rw_r switch
  Shifts-parse_rw_r target source = elim (Bool-cases (target == 6)) [
    | inl six ↦
        let is_six : target ≡ 6 = ground arith in
        rw is_six (
          Shifts-get _ _ (
            Shifts-same (0 + (size_r (is_index prefix) 6 + (0 + (0 + size_r (is_index 0) source))))
              _ (omega arith)
              (Shifts-then _ _ 0 _ (Shifts-set_prefix prefix prefix) (
                Shifts-then _ _ _ _ (Shifts-Moves (Moves-parse_r read_byte 6)) (
                  Shifts-get _ _ (
                    rw low (
                      Shifts-then _ _ 0 _ (Shifts-set_prefix prefix 0)
                        (Shifts-second read_byte 0 source))))))))
    | inr other ↦
        let differs : (target != 6) ≡ true = ground arith in
        rw (other, differs)
          (Shifts-get _ _ (
            Shifts-same
              (0 + (size_r (is_index 0) target + (0 + (0 + size_r (is_index prefix) source)))) _
              (omega arith)
              (rw low (
                Shifts-then _ _ 0 _ (Shifts-set_prefix prefix 0) (
                  Shifts-then _ _ _ _ (Shifts-Moves (Moves-parse_r read_byte target)) (
                    Shifts-get _ _ (
                      Shifts-then _ _ 0 _ (Shifts-set_prefix 0 prefix)
                        (Shifts-second read_byte prefix source))))))))
  ]

  -- `LD r, r` and `HALT`: the prefix after it is at most the index prefix.
  pub Shifts-parse_x1 :
      (opcode : ℕ)
      → Shifts prefix
          (if z_of opcode == 6 && y_of opcode == 6
            then prefix
            else (if y_of opcode == 6 then 0 else prefix))
          (parse_x1 read_byte opcode)
          (if z_of opcode == 6 && y_of opcode == 6
            then 0
            else size_rw (is_index prefix) (y_of opcode) (z_of opcode))
  unfolding parse_x1
  Shifts-parse_x1 opcode = elim (Bool-cases (z_of opcode == 6 && y_of opcode == 6)) [
    | inl halt ↦ rw halt (Shifts-Moves (Moves-write "HALT" []))
    | inr load ↦ rw load (
        Shifts-same (0 + size_rw (is_index prefix) (y_of opcode) (z_of opcode)) _ (omega arith) (
          Shifts-then _ _ 0 _ (Shifts-Moves (Moves-write "LD " []))
            (Shifts-parse_rw_r (y_of opcode) (z_of opcode))))
  ]

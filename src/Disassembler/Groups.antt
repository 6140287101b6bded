-- ===== src/Disassembler/Groups.antt =====
-- How many operand bytes each group of instructions has.
use z80e.Common.{
  ℕ, ◌+◌, Bool, false, List, [], ◌∷◌, Option, none, some, ◌==◌, if◌then◌else◌, switch,
}
use Prim.Native.String.{String}
use z80e.Core.Cpu.{x_of, y_of, z_of, p_of, q_of}
use z80e.Disassembler.{Print, write, ◌>>◌, parse_r, parse_n}
use z80e.Disassembler.Prefixed.{
  invalid, parse_cb, parse_ed, parse_ed_in, parse_ed_out, parse_ed_load, parse_ed_misc, parse_ed_x1,
}
use z80e.Disassembler.Plain.{
  by_name, parse_x0, parse_x0_z0, parse_x0_z1, parse_x0_z2, parse_x2, parse_x3, parse_x3_z1,
  parse_x3_z3, parse_x3_z4, parse_x3_z5, parse_call, parse_rst,
}
use z80e.Disassembler.Moves.{
  Moves, Each, moving, is_index, Moves-sum, Moves-parse_n, Moves-parse_nn, Moves-parse_d_relative,
  Moves-parse_r, Moves-parse_hl_or_i_r, Moves-parse_rp, Moves-parse_rp2, Moves-parse_rot,
  Moves-parse_im, Moves-parse_alu, Moves-parse_bli, Moves-switch, Each-cons, Moves-write,
  Moves-then_second,
}
use z80e.Disassembler.Shifts.{size_r}

pub ruleset operands = (
  moving, Moves-parse_n, Moves-parse_nn, Moves-parse_d_relative, Moves-parse_r,
  Moves-parse_hl_or_i_r, Moves-parse_rp, Moves-parse_rp2, Moves-parse_rot, Moves-parse_im,
  Moves-parse_alu, Moves-parse_bli,
)

abbrev pub size_ed : Bool → ℕ → ℕ
size_ed index opcode = switch (x_of opcode) 0 (
    0
    ∷ switch (z_of opcode) 0 (
        (if y_of opcode == 6 then 0 else size_r index (y_of opcode))
        ∷ (if y_of opcode == 6 then 0 else size_r index (y_of opcode))
        ∷ 0
        ∷ 2
        ∷ 0
        ∷ 0
        ∷ 0
        ∷ 0
        ∷ [])
    ∷ 0
    ∷ [])

abbrev pub size_x0 : Bool → ℕ → ℕ
size_x0 index opcode = switch (z_of opcode) 0 (
    switch (y_of opcode) 1 (0 ∷ 0 ∷ 1 ∷ 1 ∷ [])
    ∷ (if q_of opcode == 0 then 2 else 0)
    ∷ switch (p_of opcode) 0 (0 ∷ 0 ∷ 2 ∷ 2 ∷ [])
    ∷ 0
    ∷ size_r index (y_of opcode)
    ∷ size_r index (y_of opcode)
    ∷ (size_r index (y_of opcode) + 1)
    ∷ 0
    ∷ [])

abbrev pub size_x3 : ℕ → ℕ
size_x3 opcode = switch (z_of opcode) 0 (
    0
    ∷ 0
    ∷ 2
    ∷ switch (y_of opcode) 0 (2 ∷ 0 ∷ 1 ∷ 1 ∷ 0 ∷ 0 ∷ 0 ∷ 0 ∷ [])
    ∷ 2
    ∷ (if q_of opcode == 0 then 0 else switch (p_of opcode) 0 (2 ∷ []))
    ∷ 1
    ∷ 0
    ∷ [])

Moves-by_name :
    {prefix : ℕ} (o : Option String) (with_name : String → Print (Unit {0}))
    (without : Print (Unit {0}))
    → ((name : String) → Moves prefix (with_name name) 0)
    → Moves prefix without 0
    → Moves prefix (by_name o with_name without) 0
unfolding by_name
Moves-by_name none with_name without p q = q
Moves-by_name (some name) with_name without p q = p name

module _ {prefix : ℕ} (read_byte : ℕ → ℕ) where
  pub Moves-parse_cb :
      (opcode : ℕ)
      → Moves prefix (parse_cb read_byte opcode) (size_r (is_index prefix) (z_of opcode))
  unfolding parse_cb
  Moves-parse_cb opcode = search operands depth 20

  Moves-parse_ed_in :
      (y : ℕ)
      → Moves prefix (parse_ed_in read_byte y) (if y == 6 then 0 else size_r (is_index prefix) y)
  unfolding parse_ed_in
  Moves-parse_ed_in y = search operands depth 20

  Moves-parse_ed_out :
      (y : ℕ)
      → Moves prefix (parse_ed_out read_byte y) (if y == 6 then 0 else size_r (is_index prefix) y)
  unfolding parse_ed_out
  Moves-parse_ed_out y = search operands depth 20

  Moves-parse_ed_load : (q p : ℕ) → Moves prefix (parse_ed_load read_byte q p) 2
  unfolding parse_ed_load
  Moves-parse_ed_load q p = search operands depth 20

  Moves-parse_ed_misc : (opcode : ℕ) → Moves prefix (parse_ed_misc read_byte opcode) 0
  unfolding parse_ed_misc invalid
  Moves-parse_ed_misc opcode = search operands depth 20

  pub Moves-parse_ed :
      (opcode : ℕ) → Moves prefix (parse_ed read_byte opcode) (size_ed (is_index prefix) opcode)
  unfolding parse_ed parse_ed_x1 invalid
  Moves-parse_ed opcode =
      search
        (operands, Moves-parse_ed_in, Moves-parse_ed_out, Moves-parse_ed_load, Moves-parse_ed_misc)
        depth 40

  Moves-parse_x0_z0 :
      (y : ℕ) → Moves prefix (parse_x0_z0 read_byte y) (switch y 1 (0 ∷ 0 ∷ 1 ∷ 1 ∷ []))
  unfolding parse_x0_z0
  Moves-parse_x0_z0 y = search operands depth 20

  Moves-parse_x0_z1 : (q p : ℕ) → Moves prefix (parse_x0_z1 read_byte q p) (if q == 0 then 2 else 0)
  unfolding parse_x0_z1
  Moves-parse_x0_z1 q p = search operands depth 20

  Moves-parse_x0_z2 :
      (q p : ℕ) → Moves prefix (parse_x0_z2 read_byte q p) (switch p 0 (0 ∷ 0 ∷ 2 ∷ 2 ∷ []))
  unfolding parse_x0_z2
  Moves-parse_x0_z2 q p = search operands depth 20

  load_n :
      (y : ℕ)
      → Moves prefix
          (do write "LD " []; parse_r read_byte y; write ", " []; parse_n read_byte)
          (size_r (is_index prefix) y + 1)
  unfolding ◌>>◌
  load_n y =
      Moves-then_second _ _ _ (Moves-write "LD " [])
        (Moves-sum _ _ _ 1 (Moves-parse_r read_byte y) (λ _. second))
    where
      second : Moves prefix (write ", " [] >> parse_n read_byte) 1
      second = search operands depth 8

  pub Moves-parse_x0 :
      (opcode : ℕ) → Moves prefix (parse_x0 read_byte opcode) (size_x0 (is_index prefix) opcode)
  unfolding parse_x0
  Moves-parse_x0 opcode =
      search (operands, Moves-parse_x0_z0, Moves-parse_x0_z1, Moves-parse_x0_z2, load_n) depth 40

  pub Moves-parse_x2 :
      (opcode : ℕ)
      → Moves prefix (parse_x2 read_byte opcode) (size_r (is_index prefix) (z_of opcode))
  unfolding parse_x2
  Moves-parse_x2 opcode = search operands depth 20

  Moves-parse_x3_z1 : (q p : ℕ) → Moves prefix (parse_x3_z1 read_byte q p) 0
  unfolding parse_x3_z1
  Moves-parse_x3_z1 q p = search operands depth 30

  Moves-parse_x3_z3 :
      (y : ℕ)
      → Moves prefix (parse_x3_z3 read_byte y) (switch y 0 (2 ∷ 0 ∷ 1 ∷ 1 ∷ 0 ∷ 0 ∷ 0 ∷ 0 ∷ []))
  unfolding parse_x3_z3
  Moves-parse_x3_z3 y = search operands depth 40

  module _ (pcalls : Option (List (String × ℕ))) where
    Moves-parse_x3_z4 : (y : ℕ) → Moves prefix (parse_x3_z4 read_byte pcalls y) 2
    unfolding parse_x3_z4
    Moves-parse_x3_z4 y = search (operands, Moves-by_name) depth 20

    Moves-parse_x3_z5 :
        (q p : ℕ)
        → Moves prefix
            (parse_x3_z5 read_byte pcalls q p)
            (if q == 0 then 0 else switch p 0 (2 ∷ []))
    unfolding parse_x3_z5 parse_call
    Moves-parse_x3_z5 q p = search (operands, Moves-by_name) depth 20

    -- Without the system calls of KnightOS.
    Moves-parse_rst :
        (again : Print (Unit {0})) (y : ℕ)
        → Moves prefix (parse_rst read_byte pcalls false again y) 0
    unfolding parse_rst
    Moves-parse_rst again y = Moves-write _ _

    pub Moves-parse_x3 :
        (again : Print (Unit {0})) (opcode : ℕ)
        → Moves prefix (parse_x3 read_byte pcalls false again opcode) (size_x3 opcode)
    unfolding parse_x3
    Moves-parse_x3 again opcode =
        search
          (
            operands, Moves-parse_x3_z1, Moves-parse_x3_z3, Moves-parse_x3_z4, Moves-parse_x3_z5,
            Moves-parse_rst,
          )
          depth 40

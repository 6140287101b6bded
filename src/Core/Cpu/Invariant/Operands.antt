-- ===== src/Core/Cpu/Invariant/Operands.antt =====
-- The operand accessors keep the register file within its widths.
use z80e.Common.{ℕ, arith, u8}
use z80e.Core.Cpu.{Board, Exec}
use z80e.Core.Cpu.Invariant.{
  IsKept, Keeps, Keeps-cpu_read_byte, Keeps-cpu_write_byte, Keeps-if, Keeps-read_d, steps,
}
use z80e.Core.Cpu.Invariant.Effects.{
  Fitting, Fitting-set_af, Fitting-set_bc, Fitting-set_de, Fitting-set_hl, Fitting-set_ix,
  Fitting-set_iy,
}
use z80e.Core.Cpu.Operands.{
  by_prefix, h_or_ih_r, h_or_ih_w, hl_or_i_r, hl_or_i_w, index_address, indexed_read, indexed_write,
  l_or_il_r, l_or_il_w, read_r, read_rp, read_rp2, read_write_r, write_r, write_rp, write_rp2,
}
use z80e.Core.Registers.{Registers}

-- A store through one of the three prefixes.
Fitting-by_prefix :
    (p : ℕ) (g i k : Registers → Registers)
    → Fitting g
    → Fitting i
    → Fitting k
    → Fitting (λ reg. by_prefix p (g reg) (i reg) (k reg))
unfolding by_prefix
Fitting-by_prefix p g i k hg hi hk = record {
  fit = λ reg h. ground (arith, hg.fit reg h, hi.fit reg h, hk.fit reg h);
}

Keeps-by_prefix :
    {M A : Type 0} {Q : M → Type 0} (p : ℕ) (m n k : Exec M A)
    → Keeps Q m
    → Keeps Q n
    → Keeps Q k
    → Keeps Q (by_prefix p m n k)
unfolding by_prefix
Keeps-by_prefix p m n k hm hn hk = Keeps-if _ m _ hm (Keeps-if _ n k hn hk)

Fitting-c : (v : ℕ) → Fitting (λ reg. record reg { c = u8 v })
Fitting-c v = record { fit = λ reg h. omega arith }

Fitting-d : (v : ℕ) → Fitting (λ reg. record reg { d = u8 v })
Fitting-d v = record { fit = λ reg h. omega arith }

Fitting-e : (v : ℕ) → Fitting (λ reg. record reg { e = u8 v })
Fitting-e v = record { fit = λ reg h. omega arith }

Fitting-h : (v : ℕ) → Fitting (λ reg. record reg { h = u8 v })
Fitting-h v = record { fit = λ reg h. omega arith }

Fitting-l : (v : ℕ) → Fitting (λ reg. record reg { l = u8 v })
Fitting-l v = record { fit = λ reg h. omega arith }

Fitting-ixh : (v : ℕ) → Fitting (λ reg. record reg { ixh = u8 v })
Fitting-ixh v = record { fit = λ reg h. omega arith }

Fitting-iyh : (v : ℕ) → Fitting (λ reg. record reg { iyh = u8 v })
Fitting-iyh v = record { fit = λ reg h. omega arith }

Fitting-ixl : (v : ℕ) → Fitting (λ reg. record reg { ixl = u8 v })
Fitting-ixl v = record { fit = λ reg h. omega arith }

Fitting-iyl : (v : ℕ) → Fitting (λ reg. record reg { iyl = u8 v })
Fitting-iyl v = record { fit = λ reg h. omega arith }

ruleset by_prefix_rules = (
  Fitting-by_prefix, Keeps-by_prefix, Fitting-c, Fitting-d, Fitting-e, Fitting-h, Fitting-l,
  Fitting-ixh, Fitting-ixl, Fitting-iyh, Fitting-iyl,
)

module _ {M : Type 0} {Q : M → Type 0} (board : Board M) (safe : IsKept Q board) where
  pub Keeps-h_or_ih_r : Keeps Q (h_or_ih_r board)
  unfolding h_or_ih_r
  Keeps-h_or_ih_r = search steps depth 14

  pub Keeps-h_or_ih_w : (value : ℕ) → Keeps Q (h_or_ih_w board value)
  unfolding h_or_ih_w
  Keeps-h_or_ih_w value = search (steps, by_prefix_rules) depth 14

  pub Keeps-l_or_il_r : Keeps Q (l_or_il_r board)
  unfolding l_or_il_r
  Keeps-l_or_il_r = search steps depth 14

  pub Keeps-l_or_il_w : (value : ℕ) → Keeps Q (l_or_il_w board value)
  unfolding l_or_il_w
  Keeps-l_or_il_w value = search (steps, by_prefix_rules) depth 14

  pub Keeps-hl_or_i_r : Keeps Q (hl_or_i_r board)
  unfolding hl_or_i_r
  Keeps-hl_or_i_r = search steps depth 14

  pub Keeps-hl_or_i_w : (value : ℕ) → Keeps Q (hl_or_i_w board value)
  unfolding hl_or_i_w
  Keeps-hl_or_i_w value =
      search (steps, Fitting-set_hl, Fitting-set_ix, Fitting-set_iy, by_prefix_rules) depth 14

  pub Keeps-index_address : (base : ℕ) → Keeps Q (index_address board base)
  unfolding index_address
  Keeps-index_address base = search (steps, Keeps-read_d) depth 14

  pub Keeps-indexed_read : (extra : ℕ) → Keeps Q (indexed_read board extra)
  unfolding indexed_read
  Keeps-indexed_read extra =
      search (steps, Keeps-cpu_read_byte, Keeps-index_address, by_prefix_rules) depth 14

  pub Keeps-indexed_write : (extra : ℕ) (value : ℕ) → Keeps Q (indexed_write board extra value)
  unfolding indexed_write
  Keeps-indexed_write extra value =
      search (steps, Keeps-cpu_write_byte, Keeps-index_address, by_prefix_rules) depth 14

  pub Keeps-read_r : (i : ℕ) → Keeps Q (read_r board i)
  unfolding read_r
  Keeps-read_r i = search (steps, Keeps-h_or_ih_r, Keeps-l_or_il_r, Keeps-indexed_read) depth 14

  pub Keeps-write_r : (i : ℕ) (value : ℕ) → Keeps Q (write_r board i value)
  unfolding write_r
  Keeps-write_r i value =
      search (steps, Keeps-h_or_ih_w, Keeps-l_or_il_w, Keeps-indexed_write, by_prefix_rules) depth
        14

  pub Keeps-read_write_r : (read : ℕ) (write : ℕ) → Keeps Q (read_write_r board read write)
  unfolding read_write_r
  Keeps-read_write_r read write = search (steps, Keeps-read_r, Keeps-write_r) depth 14

  pub Keeps-read_rp : (i : ℕ) → Keeps Q (read_rp board i)
  unfolding read_rp
  Keeps-read_rp i = search (steps, Keeps-hl_or_i_r) depth 14

  pub Keeps-write_rp : (i : ℕ) (value : ℕ) → Keeps Q (write_rp board i value)
  unfolding write_rp
  Keeps-write_rp i value = search (steps, Keeps-hl_or_i_w, Fitting-set_bc, Fitting-set_de) depth 14

  pub Keeps-read_rp2 : (i : ℕ) → Keeps Q (read_rp2 board i)
  unfolding read_rp2
  Keeps-read_rp2 i = search (steps, Keeps-hl_or_i_r) depth 14

  pub Keeps-write_rp2 : (i : ℕ) (value : ℕ) → Keeps Q (write_rp2 board i value)
  unfolding write_rp2
  Keeps-write_rp2 i value =
      search (steps, Keeps-hl_or_i_w, Fitting-set_af, Fitting-set_bc, Fitting-set_de) depth 14

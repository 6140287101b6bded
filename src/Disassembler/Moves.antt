-- ===== src/Disassembler/Moves.antt =====
-- How far code of the disassembler moves the place in the memory.
use z80e.Common.{
  ℕ, zero, suc, ◌+◌, ◌^◌, ◌<◌, ◌≡◌, refl, ap, arith, Bool, true, false, ◌||◌, List, [], ◌∷◌, ◌>>>◌,
  ◌==◌, if◌then◌else◌, inl, inr, Bool-cases, switch, switch-All, All, all_nil, all_cons, u16,
}
use Prim.Native.String.{String}
use z80e.Disassembler.{
  Argument, number, Line, Print, pure, ◌>>=◌, ◌>>◌, write, get_prefix, get_current, by_prefix,
  next_byte, parse_n, parse_nn, parse_d_relative, parse_r, parse_r_6, parse_hl_or_i_r,
  parse_h_or_ih_w, parse_l_or_il_w, parse_rp, parse_rp2, parse_rot, parse_im, parse_alu, parse_bli,
}

-- From every line with the prefix, the code moves on by `n` bytes and keeps the prefix.
pub record Moves {A : Type 0} (prefix : ℕ) (m : Print A) (n : ℕ) : Type 0 where
  pub moves :
      (line : Line)
      → line.prefix ≡ prefix
      → line.current < 2 ^ 16
      → ((m line).1.current ≡ u16 (line.current + n)) × ((m line).1.prefix ≡ prefix)

-- Cases, each with the number of its bytes.
pub data Each {A : Type 0} (prefix : ℕ) : List (Print A) → List ℕ → Type 0 where
  each_nil : Each prefix [] []
  each_cons :
      {m : Print A} {n : ℕ} {ms : List (Print A)} {ns : List ℕ}
      → Moves prefix m n
      → Each prefix ms ns
      → Each prefix (m ∷ ms) (n ∷ ns)

module _ {prefix : ℕ} where
  pub Moves-pure : {A : Type 0} (a : A) → Moves prefix (pure a) 0
  unfolding pure
  Moves-pure a = record { moves = λ line same fits. (omega arith, same) }

  pub Moves-write :
      (format : String) (arguments : List Argument) → Moves prefix (write format arguments) 0
  unfolding write
  Moves-write format arguments = record { moves = λ line same fits. (omega arith, same) }

  pub Moves-get_prefix : Moves prefix get_prefix 0
  unfolding get_prefix
  Moves-get_prefix = record { moves = λ line same fits. (omega arith, same) }

  pub Moves-get_current : Moves prefix get_current 0
  unfolding get_current
  Moves-get_current = record { moves = λ line same fits. (omega arith, same) }

  pub Moves-sum :
      {A B : Type 0} (m : Print A) (k : A → Print B) (a b : ℕ)
      → Moves prefix m a
      → ((x : A) → Moves prefix (k x) b)
      → Moves prefix (m >>= k) (a + b)
  unfolding ◌>>=◌
  Moves-sum m k a b p q = record {
    moves = λ line same fits.
        let (there, same') = p.moves line same fits in
        let (on, kept) = (q (m line).0).moves (m line).1 same' (omega arith) in (omega arith, kept);
  }

  pub Moves-bind_first :
      {A B : Type 0} (m : Print A) (k : A → Print B) (n : ℕ)
      → Moves prefix m n
      → ((x : A) → Moves prefix (k x) 0)
      → Moves prefix (m >>= k) n
  Moves-bind_first m k n p q =
      let same : n + 0 ≡ n = omega arith in rw same at (Moves-sum m k n 0 p q)

  pub Moves-bind_second :
      {A B : Type 0} (m : Print A) (k : A → Print B) (n : ℕ)
      → Moves prefix m 0
      → ((x : A) → Moves prefix (k x) n)
      → Moves prefix (m >>= k) n
  Moves-bind_second m k n p q =
      let same : 0 + n ≡ n = omega arith in rw same at (Moves-sum m k 0 n p q)

  pub Moves-get :
      {A : Type 0} (k : ℕ → Print A) (n : ℕ)
      → Moves prefix (k prefix) n
      → Moves prefix (get_prefix >>= k) n
  unfolding get_prefix ◌>>=◌
  Moves-get k n p = record {
    moves = λ line same fits.
        let known : k line.prefix ≡ k prefix = ap k same in
        rw (known, ◌>>=◌, get_prefix) (p.moves line same fits);
  }

  pub Moves-then_first :
      {A B : Type 0} (m : Print A) (k : Print B) (n : ℕ)
      → Moves prefix m n
      → Moves prefix k 0
      → Moves prefix (m >> k) n
  unfolding ◌>>◌
  Moves-then_first m k n p q = Moves-bind_first m (λ _. k) n p (λ _. q)

  pub Moves-then_second :
      {A B : Type 0} (m : Print A) (k : Print B) (n : ℕ)
      → Moves prefix m 0
      → Moves prefix k n
      → Moves prefix (m >> k) n
  unfolding ◌>>◌
  Moves-then_second m k n p q = Moves-bind_second m (λ _. k) n p (λ _. q)

  pub Moves-if :
      {A : Type 0} (t : Bool) (m k : Print A) (a b : ℕ)
      → Moves prefix m a
      → Moves prefix k b
      → Moves prefix (if t then m else k) (if t then a else b)
  Moves-if true m k a b p q = p
  Moves-if false m k a b p q = q

  pub Moves-switch :
      {A : Type 0} {ms : List (Print A)} {ns : List ℕ} (i : ℕ) (d : Print A) (e : ℕ)
      → Moves prefix d e
      → Each prefix ms ns
      → Moves prefix (switch i d ms) (switch i e ns)
  unfolding switch
  Moves-switch i d e h each_nil = h
  Moves-switch zero d e h (each_cons p each) = p
  Moves-switch (suc i) d e h (each_cons p each) = Moves-switch i d e h each

  pub Moves-either :
      {A : Type 0} (t : Bool) (m k : Print A) (n : ℕ)
      → Moves prefix m n
      → Moves prefix k n
      → Moves prefix (if t then m else k) n
  Moves-either true m k n p q = p
  Moves-either false m k n p q = q

  -- Cases without operand bytes.
  pub Moves-still :
      {A : Type 0} (i : ℕ) (d : Print A) (ms : List (Print A))
      → Moves prefix d 0
      → All (λ m. Moves prefix m 0) ms
      → Moves prefix (switch i d ms) 0
  Moves-still i d ms h all = switch-All (λ m. Moves prefix m 0) i d ms h all

  pub Still-nil : {A : Type 0} → All {A = Print A} (λ m. Moves prefix m 0) []
  Still-nil = all_nil

  pub Still-cons :
      {A : Type 0} (m : Print A) (ms : List (Print A))
      → Moves prefix m 0
      → All {A = Print A} (λ m. Moves prefix m 0) ms
      → All {A = Print A} (λ m. Moves prefix m 0) (m ∷ ms)
  Still-cons m ms p all = all_cons p all

  pub Each-nil : {A : Type 0} → Each {A = A} prefix [] []
  Each-nil = each_nil

  pub Each-cons :
      {A : Type 0} (m : Print A) (n : ℕ) (ms : List (Print A)) (ns : List ℕ)
      → Moves prefix m n
      → Each prefix ms ns
      → Each prefix (m ∷ ms) (n ∷ ns)
  Each-cons m n ms ns p each = each_cons p each

pub ruleset moving = (
  Moves-pure, Moves-write, Moves-get_prefix, Moves-get_current, Moves-bind_first, Moves-bind_second,
  Moves-then_first, Moves-then_second, Moves-if, Moves-either, Moves-switch, Each-nil, Each-cons,
  Moves-still, Still-nil, Still-cons,
)

module _ {prefix : ℕ} where
  pub Moves-parse_hl_or_i_r : Moves prefix parse_hl_or_i_r 0
  unfolding parse_hl_or_i_r
  Moves-parse_hl_or_i_r = search moving depth 8

  pub Moves-parse_h_or_ih_w : Moves prefix parse_h_or_ih_w 0
  unfolding parse_h_or_ih_w
  Moves-parse_h_or_ih_w = search moving depth 8

  pub Moves-parse_l_or_il_w : Moves prefix parse_l_or_il_w 0
  unfolding parse_l_or_il_w
  Moves-parse_l_or_il_w = search moving depth 8

  pub Moves-parse_rp : (i : ℕ) → Moves prefix (parse_rp i) 0
  unfolding parse_rp
  Moves-parse_rp i = search (moving, Moves-parse_hl_or_i_r) depth 30

  pub Moves-parse_rp2 : (i : ℕ) → Moves prefix (parse_rp2 i) 0
  unfolding parse_rp2
  Moves-parse_rp2 i = search (moving, Moves-parse_hl_or_i_r) depth 30

  pub Moves-parse_rot : (y : ℕ) → Moves prefix (parse_rot y) 0
  unfolding parse_rot
  Moves-parse_rot y = search (moving, Moves-parse_hl_or_i_r) depth 30

  pub Moves-parse_im : (y : ℕ) → Moves prefix (parse_im y) 0
  unfolding parse_im
  Moves-parse_im y = search (moving, Moves-parse_hl_or_i_r) depth 30

  pub Moves-parse_alu : (i : ℕ) → Moves prefix (parse_alu i) 0
  unfolding parse_alu
  Moves-parse_alu i = search (moving, Moves-parse_hl_or_i_r) depth 30

  pub Moves-parse_bli : (y z : ℕ) → Moves prefix (parse_bli y z) 0
  unfolding parse_bli
  Moves-parse_bli y z = search (moving, Moves-parse_hl_or_i_r) depth 30

-- Whether registers H, L and HL are those of an index register.
abbrev pub is_index : ℕ → Bool
is_index prefix = prefix >>> 8 == 0xdd || prefix >>> 8 == 0xfd

module _ {prefix : ℕ} (read_byte : ℕ → ℕ) where
  pub Moves-next_byte : Moves prefix (next_byte read_byte) 1
  unfolding next_byte
  Moves-next_byte = record { moves = λ line same fits. (refl, same) }

  pub Moves-parse_n : Moves prefix (parse_n read_byte) 1
  unfolding parse_n
  Moves-parse_n = search (moving, Moves-next_byte) depth 8

  pub Moves-parse_d_relative : Moves prefix (parse_d_relative read_byte) 1
  unfolding parse_d_relative
  Moves-parse_d_relative = search (moving, Moves-next_byte) depth 8

  pub Moves-parse_nn : Moves prefix (parse_nn read_byte) 2
  unfolding parse_nn
  Moves-parse_nn =
      Moves-sum _ _ 1 1 Moves-next_byte (λ first. search (moving, Moves-next_byte) depth 8)

  displacement :
      (format : String) → Moves prefix (next_byte read_byte >>= λ d. write format (number d ∷ [])) 1
  displacement format = search (moving, Moves-next_byte) depth 8

  pub Moves-parse_r_6 : Moves prefix (parse_r_6 read_byte) (if is_index prefix then 1 else 0)
  unfolding parse_r_6 by_prefix
  Moves-parse_r_6 = Moves-get _ _ (elim (Bool-cases (prefix >>> 8 == 0xdd)) [
    | inl ix ↦ rw ix (displacement "(IX + 0x%X)")
    | inr no_ix ↦ elim (Bool-cases (prefix >>> 8 == 0xfd)) [
      | inl iy ↦ rw (no_ix, iy) (displacement "(IY + 0x%X)")
      | inr no_iy ↦ rw (no_ix, no_iy) (Moves-write "(HL)" [])
    ]
  ])

  pub Moves-parse_r :
      (part : ℕ)
      → Moves prefix
          (parse_r read_byte part)
          (switch part 0 (0 ∷ 0 ∷ 0 ∷ 0 ∷ 0 ∷ 0 ∷ (if is_index prefix then 1 else 0) ∷ 0 ∷ []))
  unfolding parse_r
  Moves-parse_r part =
      search (moving, Moves-parse_h_or_ih_w, Moves-parse_l_or_il_w, Moves-parse_r_6) depth 30

-- ===== src/Common/Stores.antt =====
-- One bit of a byte replaced, as a store to a bit field does it.
use Prim.Native.Nat.{ℕ, ◌+◌, ◌*◌, ◌/◌, ◌%◌, ◌^◌, ◌<◌, bit_and}
use mathlib.Core.Path.{◌≡◌, refl, sym}
use mathlib.Core.Bool.{Bool, true, false, not, ◌&&◌, ◌||◌}
use native.Mathlib.Omega.{arith}
use z80e.Common.Tests.{◌==◌, if◌then◌else◌, to_ℕ}
use z80e.Common.Bits.{◌|||◌, bit, bit-bit_or, bit-bit_and, bit_and-low}
use z80e.Common.Words.{u8, int_not, ◌<<<◌}
use z80e.Common.Tables.{failures, no_failure}

unfoldable pub with_bit : ℕ → ℕ → Bool → ℕ
with_bit byte k val = bit_and byte (int_not (2 ^ k)) ||| to_ℕ val <<< k

-- Bit `j` of a byte after bit `k` is replaced: for all bits of a byte, by evaluation.
bits_agree : (i : ℕ) → Bool
bits_agree i =
    let j = i % 8 in
    let k = i / 8 in
    if j == k
    then not (bit j (int_not (2 ^ k))) && not (bit j (0 <<< k)) && bit j (1 <<< k)
    else bit j (int_not (2 ^ k)) && not (bit j (0 <<< k)) && not (bit j (1 <<< k))

bits_table : failures bits_agree 64 ≡ 0
unfolding failures bits_agree
bits_table = refl

choose :
    (b m z o same val : Bool)
    → (if same then not m && not z && o else m && not z && not o) ≡ true
    → (b && m || (if val then o else z)) ≡ (if same then val else b)
choose b m z o same val h = ground arith

bit-shifted :
    (j k : ℕ) (val : Bool)
    → bit j (to_ℕ val <<< k) ≡ (if val then bit j (1 <<< k) else bit j (0 <<< k))
bit-shifted j k true = refl
bit-shifted j k false = refl

pub bit-with_bit :
    (byte j k : ℕ) (val : Bool)
    → j < 8
    → k < 8
    → bit j (with_bit byte k val) ≡ (if j == k then val else bit j byte)
unfolding with_bit bits_agree
bit-with_bit byte j k val hj hk =
    let all : bits_agree (k * 8 + j) ≡ true =
      no_failure bits_agree (k * 8 + j) (omega arith) bits_table in
    let low : (k * 8 + j) % 8 ≡ j = omega arith in
    let high : (k * 8 + j) / 8 ≡ k = omega arith in
    let all' = rw (low, high) at all in
    rw (bit-bit_or, bit-bit_and, bit-shifted j k val)
      (choose (bit j byte) (bit j (int_not (2 ^ k))) (bit j (0 <<< k)) (bit j (1 <<< k)) (j == k)
        val all')

low_ones : failures (λ k. bit k 255) 8 ≡ 0
unfolding failures
low_ones = refl

-- The conversion to a byte keeps its bits.
pub bit-u8 : (k v : ℕ) → k < 8 → bit k (u8 v) ≡ bit k v
bit-u8 k v h =
    let one = no_failure (λ j. bit j 255) k h low_ones in
    rw (sym (bit_and-low 8 v), bit-bit_and) (ground arith)

-- ===== src/Common/Bits.antt =====
-- Bits of native numbers, and what `&`, `|` and `^` do to each of them.
use Prim.Native.Nat.{
  ℕ, zero, suc, ◌+◌, ◌-◌, ◌*◌, ◌/◌, ◌%◌, ◌^◌, ◌≤◌, ◌<◌, min, max, bit_and, bit_or, bit_xor, digits,
  bitwise, bit_and-bitwise, bit_or-bitwise, bit_xor-bitwise, differ,
}
use mathlib.Core.Path.{◌≡◌, refl, sym, ap, ◌∙◌}
use mathlib.Core.Bool.{Bool, ◌&&◌, ◌||◌, xor}
use mathlib.Core.WellFounded.{Acc, WellFounded, induction}
use native.Mathlib.Nat.{
  le_refl, div-div-eq-div-mul, pow-succ', one-le-pow, mod-eq-sub-div-mul, div-mul-le_self,
}
use native.Mathlib.Omega.{arith}
use z80e.Common.Tests.{◌==◌, if◌then◌else◌, to_bool}

acc_below : (k n : ℕ) → n < k → Acc ◌<◌ n
acc_below zero n h = absurd (omega arith)
acc_below (suc k) n h = Acc.intro n (λ m m<n. acc_below k m (omega arith))

lt_wf : WellFounded ◌<◌
lt_wf = record { apply = λ n. acc_below (suc n) n (le_refl _) }

-- `a | b`.
infixl 32 ◌|||◌
abbrev pub ◌|||◌ : ℕ → ℕ → ℕ
a ||| b = bit_or a b

-- Bit `k` of `x`.
abbrev pub bit : ℕ → ℕ → Bool
bit k x = x / 2 ^ k % 2 == 1

-- How a digit-by-digit operation `f` treats the lowest binary digit; `z` is its value when the
-- first number has run out.
module _ (z : ℕ → ℕ) (f : ℕ → ℕ → ℕ) where
  digits-zero : (fuel y : ℕ) → digits z f fuel 0 y ≡ z y
  digits-zero zero y = refl
  digits-zero (suc fuel) y = refl

  spare_fuel : (spare x fuel y : ℕ) → x ≤ fuel → digits z f (spare + fuel) x y ≡ digits z f fuel x y
  spare_fuel spare zero fuel y enough = digits-zero (spare + fuel) y ∙ sym (digits-zero fuel y)
  spare_fuel spare (suc x) zero y enough = absurd (omega arith)
  spare_fuel spare (suc x) (suc fuel) y enough =
      let more : spare + suc fuel ≡ suc (spare + fuel) = omega arith in
      rw (more, spare_fuel spare (suc x / 2) fuel (y / 2) (omega arith)) refl

  lowest_digit :
      (x y : ℕ)
      → bitwise z f (suc x) y ≡ f (suc x % 2) (y % 2) + 2 * bitwise z f (suc x / 2) (y / 2)
  lowest_digit x y =
      let half = suc x / 2 in
      let all : x - half + half ≡ x = omega arith in
      omega (
        arith,
        sym (ap (λ fuel. digits z f fuel half (y / 2)) all)
            ∙ spare_fuel (x - half) half half (y / 2) (omega arith),
      )

pub or_lowest : (x y : ℕ) → bit_or x y ≡ max (x % 2) (y % 2) + 2 * bit_or (x / 2) (y / 2)
or_lowest zero y = omega (arith, bit_or-bitwise 0 y, bit_or-bitwise 0 (y / 2))
or_lowest (suc k) y = simp bit_or-bitwise (lowest_digit (λ d. d) max k y)

pub and_lowest : (x y : ℕ) → bit_and x y ≡ min (x % 2) (y % 2) + 2 * bit_and (x / 2) (y / 2)
and_lowest zero y = omega (arith, bit_and-bitwise 0 y, bit_and-bitwise 0 (y / 2))
and_lowest (suc k) y = simp bit_and-bitwise (lowest_digit (λ _. 0) min k y)

-- Of two digits, the one that differs is their sum without the carry.
differ_sum : (x y : ℕ) → x ≤ 1 → y ≤ 1 → differ x y ≡ (x + y) % 2
differ_sum (suc (suc x)) y p q = absurd (omega arith)
differ_sum x (suc (suc y)) p q = absurd (omega arith)
differ_sum zero y p q = omega arith
differ_sum (suc zero) zero p q = refl
differ_sum (suc zero) (suc zero) p q = refl

pub xor_lowest : (x y : ℕ) → bit_xor x y ≡ (x % 2 + y % 2) % 2 + 2 * bit_xor (x / 2) (y / 2)
xor_lowest zero y = omega (arith, bit_xor-bitwise 0 y, bit_xor-bitwise 0 (y / 2))
xor_lowest (suc k) y = omega (
  arith,
  bit_xor-bitwise (suc k) y,
  bit_xor-bitwise (suc k / 2) (y / 2),
  lowest_digit (λ d. d) differ k y,
  differ_sum (suc k % 2) (y % 2) (omega arith) (omega arith),
)

-- One bit further up is one bit of the half.
pub bit-suc : (k x : ℕ) → bit (suc k) x ≡ bit k (x / 2)
bit-suc k x = rw (pow-succ' 2 k, ← div-div-eq-div-mul x 2 (2 ^ k))

pub bit-bit_or : (k a b : ℕ) → bit k (bit_or a b) ≡ (bit k a || bit k b)
bit-bit_or zero a b = ground (arith, or_lowest a b)
bit-bit_or (suc k) a b =
    let half : bit_or a b / 2 ≡ bit_or (a / 2) (b / 2) = omega (arith, or_lowest a b) in
    rw (bit-suc k (bit_or a b), bit-suc k a, bit-suc k b, half) (bit-bit_or k (a / 2) (b / 2))

pub bit-bit_and : (k a b : ℕ) → bit k (bit_and a b) ≡ (bit k a && bit k b)
bit-bit_and zero a b = ground (arith, and_lowest a b)
bit-bit_and (suc k) a b =
    let half : bit_and a b / 2 ≡ bit_and (a / 2) (b / 2) = omega (arith, and_lowest a b) in
    rw (bit-suc k (bit_and a b), bit-suc k a, bit-suc k b, half) (bit-bit_and k (a / 2) (b / 2))

pub bit-bit_xor : (k a b : ℕ) → bit k (bit_xor a b) ≡ xor (bit k a) (bit k b)
unfolding xor
bit-bit_xor zero a b = ground (arith, xor_lowest a b)
bit-bit_xor (suc k) a b =
    let half : bit_xor a b / 2 ≡ bit_xor (a / 2) (b / 2) = omega (arith, xor_lowest a b) in
    rw (bit-suc k (bit_xor a b), bit-suc k a, bit-suc k b, half) (bit-bit_xor k (a / 2) (b / 2))

-- The three operations stay within a width.
pub bit_or-lt : (k a b : ℕ) → a < 2 ^ k → b < 2 ^ k → bit_or a b < 2 ^ k
bit_or-lt zero a b p q = ground (arith, or_lowest a b)
bit_or-lt (suc k) a b p q =
    let ih =
      bit_or-lt k (a / 2) (b / 2) (omega (arith, pow-succ' 2 k)) (omega (arith, pow-succ' 2 k)) in
    omega (arith, or_lowest a b, pow-succ' 2 k)

pub bit_xor-lt : (k a b : ℕ) → a < 2 ^ k → b < 2 ^ k → bit_xor a b < 2 ^ k
bit_xor-lt zero a b p q = ground (arith, xor_lowest a b)
bit_xor-lt (suc k) a b p q =
    let ih =
      bit_xor-lt k (a / 2) (b / 2) (omega (arith, pow-succ' 2 k)) (omega (arith, pow-succ' 2 k)) in
    omega (arith, xor_lowest a b, pow-succ' 2 k)

pub bit_and-le : (a b : ℕ) → bit_and a b ≤ a
bit_and-le a b = induction lt_wf {C = λ n. (m : ℕ) → bit_and n m ≤ n} a step b
  where
    step : (n : ℕ) → ((k : ℕ) → k < n → (m : ℕ) → bit_and k m ≤ k) → (m : ℕ) → bit_and n m ≤ n
    step zero ih m = omega (arith, and_lowest 0 m, bit_and-bitwise 0 m)
    step (suc n) ih m = omega (arith, and_lowest (suc n) m, ih (suc n / 2) (omega arith) (m / 2))

pub bit_and-le_right : (a b : ℕ) → bit_and a b ≤ b
bit_and-le_right a b = induction lt_wf {C = λ n. (m : ℕ) → bit_and n m ≤ m} a step b
  where
    step : (n : ℕ) → ((k : ℕ) → k < n → (m : ℕ) → bit_and k m ≤ m) → (m : ℕ) → bit_and n m ≤ m
    step zero ih m = omega (arith, and_lowest 0 m, bit_and-bitwise 0 m)
    step (suc n) ih m = omega (arith, and_lowest (suc n) m, ih (suc n / 2) (omega arith) (m / 2))

bit_and-zero : (a : ℕ) → bit_and a 0 ≡ 0
bit_and-zero a = omega (arith, bit_and-le_right a 0)

-- A mask of one bit.
pub bit_and-two-pow : (k a : ℕ) → bit_and a (2 ^ k) ≡ (if bit k a then 2 ^ k else 0)
bit_and-two-pow zero a = ground (arith, and_lowest a 1, bit_and-zero (a / 2))
bit_and-two-pow (suc k) a =
    rw (bit-suc k a, pow-succ' 2 k)
      (ground (arith, and_lowest a (2 * 2 ^ k), bit_and-two-pow k (a / 2), one-le-pow k 2))

-- `a & (1 << k)` as a test.
pub mask-bit : (k a : ℕ) → to_bool (bit_and a (2 ^ k)) ≡ bit k a
mask-bit k a = ground (arith, bit_and-two-pow k a, one-le-pow k 2)

mod-double : (a m : ℕ) → a % (2 * m) ≡ 2 * (a / 2 % m) + a % 2
mod-double a m = ground (
  arith,
  mod-eq-sub-div-mul a (2 * m),
  mod-eq-sub-div-mul (a / 2) m,
  div-mul-le_self a (2 * m),
  div-mul-le_self (a / 2) m,
  div-div-eq-div-mul a 2 m,
)

-- A mask of the `k` low bits.
pub bit_and-low : (k a : ℕ) → bit_and a (2 ^ k - 1) ≡ a % 2 ^ k
bit_and-low zero a = omega (arith, bit_and-zero a)
bit_and-low (suc k) a =
    let half : (2 * 2 ^ k - 1) / 2 ≡ 2 ^ k - 1 = omega (arith, one-le-pow k 2) in
    rw (pow-succ' 2 k, and_lowest a (2 * 2 ^ k - 1), half, bit_and-low k (a / 2), mod-double)
      (omega (arith, one-le-pow k 2))

-- Numbers below `2 ^ k` with the same `k` bits are equal.
pub bit_ext : (k a b : ℕ) → a < 2 ^ k → b < 2 ^ k → ((j : ℕ) → j < k → bit j a ≡ bit j b) → a ≡ b
bit_ext zero a b p q h = omega arith
bit_ext (suc k) a b p q h =
    let halves =
      bit_ext k (a / 2) (b / 2) (omega (arith, pow-succ' 2 k)) (omega (arith, pow-succ' 2 k))
        (λ j lt. sym (bit-suc j a) ∙ h (suc j) (omega arith) ∙ bit-suc j b) in
    ground (arith, h 0)

-- Bytes with the same bits are equal.
pub same_bits :
    (a b : ℕ)
    → a < 2 ^ 8
    → b < 2 ^ 8
    → bit 0 a ≡ bit 0 b
    → bit 1 a ≡ bit 1 b
    → bit 2 a ≡ bit 2 b
    → bit 3 a ≡ bit 3 b
    → bit 4 a ≡ bit 4 b
    → bit 5 a ≡ bit 5 b
    → bit 6 a ≡ bit 6 b
    → bit 7 a ≡ bit 7 b
    → a ≡ b
same_bits a b p q h₀ h₁ h₂ h₃ h₄ h₅ h₆ h₇ = bit_ext 8 a b p q agree
  where
    agree : (j : ℕ) → j < 8 → bit j a ≡ bit j b
    agree zero lt = h₀
    agree (suc zero) lt = h₁
    agree (suc (suc zero)) lt = h₂
    agree (suc (suc (suc zero))) lt = h₃
    agree (suc (suc (suc (suc zero)))) lt = h₄
    agree (suc (suc (suc (suc (suc zero))))) lt = h₅
    agree (suc (suc (suc (suc (suc (suc zero)))))) lt = h₆
    agree (suc (suc (suc (suc (suc (suc (suc zero))))))) lt = h₇
    agree (suc (suc (suc (suc (suc (suc (suc (suc j)))))))) lt = absurd (omega arith)

-- A low and a high part that do not overlap.
pub bit_or-join : (k a b : ℕ) → a < 2 ^ k → bit_or a (b * 2 ^ k) ≡ a + b * 2 ^ k
bit_or-join zero a b h = ground (arith, bit_or-bitwise 0 b)
bit_or-join (suc k) a b h =
    let ih = bit_or-join k (a / 2) b (omega (arith, pow-succ' 2 k)) in
    let half : b * 2 ^ suc k / 2 ≡ b * 2 ^ k = rw (pow-succ' 2 k) (omega arith) in
    let even : b * 2 ^ suc k ≡ 2 * (b * 2 ^ k) = rw (pow-succ' 2 k) (omega arith) in
    rw (or_lowest a (b * 2 ^ suc k), half, ih, even) (omega arith)

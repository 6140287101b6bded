-- ===== src/Common/Tables.antt =====
-- Properties of small ranges by evaluation.
use Prim.Native.Nat.{ℕ, zero, suc, ◌+◌, ◌<◌}
use mathlib.Core.Path.{◌≡◌}
use mathlib.Core.Logic.{inl, inr}
use mathlib.Core.Bool.{Bool, true, not}
use native.Mathlib.Omega.{arith}
use z80e.Common.Tests.{◌==◌, ==_iff, to_ℕ, Bool-cases}

-- The numbers below `k` that fail a test.
unfoldable pub failures : (ℕ → Bool) → ℕ → ℕ
failures test zero = 0
failures test (suc k) = failures test k + to_ℕ (not (test k))

pub no_failure : (test : ℕ → Bool) {k : ℕ} (i : ℕ) → i < k → failures test k ≡ 0 → test i ≡ true
unfolding failures
no_failure test {k = zero} i below none = absurd (omega arith)
no_failure test {k = suc k} i below none = elim (Bool-cases (i == k)) [
  | inl last ↦ rw ((==_iff i k).0 last) (ground arith)
  | inr inner ↦ no_failure test {k = k} i (ground arith) (omega arith)
]

-- ===== src/Common/Tests.antt =====
-- Boolean tests on the native numbers, the conditional, and the dense C `switch`.
use Prim.Native.Nat.{ℕ, zero, suc, compare, Ordering}
use mathlib.Core.Path.{◌≡◌, refl}
use mathlib.Core.Logic.{◌↔◌, ◌⊎◌, inl, inr}
use mathlib.Core.Bool.{Bool, true, false}
use mathlib.Core.Option.{Option, none, some}
use mathlib.Core.List.{List, [], ◌∷◌}
use native.Mathlib.Omega.{arith}

abbrev pub ltb : ℕ → ℕ → Bool
ltb a b = elim (compare a b) [ Ordering.lt ↦ true | _ ↦ false ]

abbrev pub leb : ℕ → ℕ → Bool
leb a b = elim (compare a b) [ Ordering.gt ↦ false | _ ↦ true ]

infix 50 ◌==◌ ◌!=◌
abbrev pub ◌==◌ : ℕ → ℕ → Bool
a == b = elim (compare a b) [ Ordering.eq ↦ true | _ ↦ false ]

abbrev pub ◌!=◌ : ℕ → ℕ → Bool
a != b = elim (compare a b) [ Ordering.eq ↦ false | _ ↦ true ]

infix 1 if◌then◌else◌
abbrev pub if◌then◌else◌ {ℓ} : {A : Type ℓ} → Bool → A → A → A
if true then x else y = x
if false then x else y = y

-- The value of a test where C uses it as a number.
abbrev pub to_ℕ : Bool → ℕ
to_ℕ true = 1
to_ℕ false = 0

-- The truth value of a number where C uses it as a test.
abbrev pub to_bool : ℕ → Bool
to_bool n = n != 0

-- `switch (i) { case 0: …; case 1: …; … }` with the value for no case first.
unfoldable pub switch {ℓ} : {A : Type ℓ} → ℕ → A → List A → A
switch i d [] = d
switch zero d (x ∷ xs) = x
switch (suc i) d (x ∷ xs) = switch i d xs

pub ==_iff : (a b : ℕ) → ((a == b) ≡ true) ↔ (a ≡ b)
==_iff a b = ground arith

-- To split on a computed value and keep the equation.
pub Bool-cases : (b : Bool) → (b ≡ true) ⊎ (b ≡ false)
Bool-cases true = inl refl
Bool-cases false = inr refl

-- What holds of every member of a list.
pub data All {ℓ κ} {A : Type ℓ} (P : A → Type κ) : List A → Type (ℓ ⊔ κ) where
  all_nil : All P []
  all_cons : {x : A} {xs : List A} → P x → All P xs → All P (x ∷ xs)

-- What holds of every case of a `switch` holds of the `switch`.
pub switch-All {ℓ κ} :
    {A : Type ℓ} (P : A → Type κ) (i : ℕ) (d : A) (xs : List A) → P d → All P xs → P (switch i d xs)
unfolding switch
switch-All P i d [] h all = h
switch-All P zero d (x ∷ xs) h (all_cons p all) = p
switch-All P (suc i) d (x ∷ xs) h (all_cons p all) = switch-All P i d xs h all

pub Option-cases {ℓ} : {A : Type ℓ} (o : Option A) → (o ≡ none) ⊎ ((a : A) × (o ≡ some a))
Option-cases none = inl refl
Option-cases (some a) = inr (a, refl)

-- ===== src/Hooks/Slots.antt =====
-- The search of a table for a free entry, and its growth by ten, which the hooks of
-- libz80e/src/debugger/hooks.c and the timers of libz80e/src/ti/asic.c share.
use z80e.Common.{
  ℕ, zero, suc, ◌+◌, ◌<◌, ◌≡◌, refl, ◌∙◌, get_or-set_ne, length-append, ◌≤◌, arith, Bool, true,
  false, List, [], ◌∷◌, Option, none, some, ◌==◌, if◌then◌else◌, length, get_or, set, replicate,
  ◌++◌, Bool-cases, Option-cases, inl, inr,
}

module _ {A : Type 0} (in_use : A → Bool) (fresh : A) where
  -- The first free entry takes `x`; when the last one is in use, ten cleared entries are added and
  -- the first of them takes `x`. A table with no entry at all is written out of its bounds.
  unfoldable pub claim : A → List A → Option (ℕ × List A)
  claim x [] = none
  claim x (s ∷ []) = if in_use s then some (1, s ∷ x ∷ replicate 9 fresh) else some (0, x ∷ [])
  claim x (s ∷ t ∷ ss) =
      let rest = claim x (t ∷ ss) in
      if in_use s
      then elim rest [ none ↦ none | some found ↦ some (suc found.0, s ∷ found.1) ]
      else some (0, x ∷ t ∷ ss)

  -- Whether every entry is in use.
  unfoldable pub full : List A → Bool
  full [] = true
  full (s ∷ ss) = let rest = full ss in if in_use s then rest else false

  -- `memset(table, 0, …)` of the first `n` entries.
  unfoldable pub clear_first : ℕ → List A → List A
  clear_first zero ss = ss
  clear_first (suc n) [] = []
  clear_first (suc n) (s ∷ ss) = fresh ∷ clear_first n ss

  unfoldable pub first_free : List A → Option ℕ
  first_free [] = none
  first_free (s ∷ ss) =
      let rest = first_free ss in
      if in_use s then elim rest [ none ↦ none | some i ↦ some (suc i) ] else some 0

  -- The growth at the end of a table in which every entry is in use: it clears the first ten
  -- entries of the table, and leaves the ten new ones as they are. Where all of these look in use, the
  -- table grows again. `blocks` is the memory that the calls of `realloc` add, one after another;
  -- `none` is that the blocks are used up.
  unfoldable pub grow_forgetful : List (List A) → A → List A → Option (ℕ × List A)
  grow_forgetful [] x ss = none
  grow_forgetful (block ∷ blocks) x ss =
      let table = clear_first 10 (ss ++ block) in
      let again = grow_forgetful blocks x table in
      elim (first_free block) [
        | none ↦ again
        | some i ↦ some (length ss + i, set table (length ss + i) x)
      ]

  -- The search with this growth.
  unfoldable pub claim_forgetful : List (List A) → A → List A → Option (ℕ × List A)
  claim_forgetful blocks x [] = none
  claim_forgetful blocks x (s ∷ ss) =
      if full (s ∷ ss) then grow_forgetful blocks x (s ∷ ss) else claim x (s ∷ ss)

  -- Whether some entry of the blocks is free.
  unfoldable pub has_free : List (List A) → Bool
  has_free [] = false
  has_free (block ∷ blocks) = let rest = has_free blocks in if full block then rest else true

-- The entry at an index is changed.
unfoldable pub reclaim : {A : Type 0} → (A → A) → List A → ℕ → List A
reclaim free [] i = []
reclaim free (s ∷ ss) zero = free s ∷ ss
reclaim free (s ∷ ss) (suc i) = s ∷ reclaim free ss i

module _ {A : Type 0} (in_use : A → Bool) (fresh : A) (unused : in_use fresh ≡ false) where
  get_or-replicate : (n i : ℕ) → get_or (replicate n fresh) i fresh ≡ fresh
  get_or-replicate zero i = refl
  get_or-replicate (suc n) zero = refl
  get_or-replicate (suc n) (suc i) = get_or-replicate n i

  reads-past :
      (x s : A) (j : ℕ)
      → get_or (s ∷ x ∷ replicate 9 fresh) j fresh ≡ (if j == 1 then x else get_or (s ∷ []) j fresh)
  reads-past x s zero = refl
  reads-past x s (suc zero) = refl
  reads-past x s (suc (suc j)) = ground (arith, get_or-replicate 9 j)

  reads-first :
      (x s : A) (ss : List A) (j : ℕ)
      → get_or (x ∷ ss) j fresh ≡ (if j == 0 then x else get_or (s ∷ ss) j fresh)
  reads-first x s ss zero = refl
  reads-first x s ss (suc j) = ground arith

  reads-next :
      (x s : A) (ss table : List A) (i : ℕ)
      → ((j : ℕ) → get_or table j fresh ≡ (if j == i then x else get_or ss j fresh))
      → (j : ℕ) → get_or (s ∷ table) j fresh ≡ (if j == suc i then x else get_or (s ∷ ss) j fresh)
  reads-next x s ss table i reads zero = ground arith
  reads-next x s ss table i reads (suc j) = ground (arith, reads j)

  -- A table with at least one entry finds a place for a new one: the place was free, or is past
  -- the end; the new entry stands there, and every other place reads as before, a place past the
  -- end as a cleared entry.
  pub claim_lem :
      (x s : A) (ss : List A)
      → (i : ℕ) × (table : List A) × (claim in_use fresh x (s ∷ ss) ≡ some (i, table))
        × (in_use (get_or (s ∷ ss) i fresh) ≡ false)
        × ((j : ℕ) → get_or table j fresh ≡ (if j == i then x else get_or (s ∷ ss) j fresh))
  unfolding claim
  claim_lem x s [] = elim (Bool-cases (in_use s)) [
    | inl used ↦ (1, s ∷ x ∷ replicate 9 fresh, rw used refl, unused, reads-past x s)
    | inr free ↦ (0, x ∷ [], rw free refl, free, reads-first x s [])
  ]
  claim_lem x s (t ∷ ss) = elim (Bool-cases (in_use s)) [
    | inl used ↦
        let (i, table, e, free, reads) = claim_lem x t ss in
        (suc i, s ∷ table, rw (used, e) refl, free, reads-next x s (t ∷ ss) table i reads)
    | inr free ↦ (0, x ∷ t ∷ ss, rw free refl, free, reads-first x s (t ∷ ss))
  ]

  get_or-clear_first :
      (n : ℕ) (ss : List A) (j : ℕ) → j < n → get_or (clear_first in_use fresh n ss) j fresh ≡ fresh
  unfolding clear_first
  get_or-clear_first zero ss j lt = absurd (omega arith)
  get_or-clear_first (suc n) [] j lt = refl
  get_or-clear_first (suc n) (s ∷ ss) zero lt = refl
  get_or-clear_first (suc n) (s ∷ ss) (suc j) lt = get_or-clear_first n ss j (omega arith)

  length-clear_first : (n : ℕ) (ss : List A) → length (clear_first in_use fresh n ss) ≡ length ss
  unfolding clear_first
  length-clear_first zero ss = refl
  length-clear_first (suc n) [] = refl
  length-clear_first (suc n) (s ∷ ss) = rw (length-clear_first n ss) refl

  -- A store behind ten cleared entries.
  cleared :
      (ss block : List A) (x : A) (k j : ℕ)
      → 10 ≤ length ss
      → j < 10
      → get_or (set (clear_first in_use fresh 10 (ss ++ block)) (length ss + k) x) j fresh ≡ fresh
  unfolding clear_first
  cleared ss block x k j len lt =
      get_or-set_ne (clear_first in_use fresh 10 (ss ++ block)) (length ss + k) j x fresh
        (λ e. absurd (omega arith))
      ∙ get_or-clear_first 10 (ss ++ block) j lt

  first_free-full : (ss : List A) → first_free in_use fresh ss ≡ none → full in_use fresh ss ≡ true
  unfolding first_free full
  first_free-full [] e = refl
  first_free-full (s ∷ ss) e = elim (Option-cases (first_free in_use fresh ss)) [
    | inl nowhere ↦ ground (arith, first_free-full ss nowhere)
    | inr found ↦ ground arith
  ]

  grow_forgetful_lem :
      (x : A) (ss : List A) (blocks : List (List A)) (j : ℕ)
      → 10 ≤ length ss
      → has_free in_use fresh blocks ≡ true
      → j < 10
      → (i : ℕ) × (table : List A) × (grow_forgetful in_use fresh blocks x ss ≡ some (i, table))
        × (get_or table j fresh ≡ fresh)
  unfolding grow_forgetful has_free
  grow_forgetful_lem x ss [] j len free lt = absurd (ground arith)
  grow_forgetful_lem x ss (block ∷ blocks) j len free lt =
      elim (Option-cases (first_free in_use fresh block)) [
        | inl nowhere ↦
            let later = rw (first_free-full block nowhere, has_free) at free in
            let longer = length-clear_first 10 (ss ++ block) ∙ length-append ss block in
            let (i, table, e, reads) =
              grow_forgetful_lem x (clear_first in_use fresh 10 (ss ++ block)) blocks j
                (omega arith) later lt in
            (i, table, rw (nowhere, grow_forgetful) e, reads)
        | inr found ↦
            let (k, place) = found in
            (
              length ss + k,
              set (clear_first in_use fresh 10 (ss ++ block)) (length ss + k) x,
              rw (place, grow_forgetful) refl,
              cleared ss block x k j len lt,
            )
      ]

  -- In a table of ten entries that are all in use, when some entry of the memory that `realloc` adds,
  -- at the first growth or a later one, looks free: the search whose growth clears the first ten
  -- entries finds a place and loses every one of the ten: each of their places reads as a cleared
  -- entry after it.
  pub claim_forgetful_lem :
      (x : A) (ss : List A) (blocks : List (List A)) (j : ℕ)
      → length ss ≡ 10
      → full in_use fresh ss ≡ true
      → has_free in_use fresh blocks ≡ true
      → j < 10
      → (i : ℕ) × (table : List A) × (claim_forgetful in_use fresh blocks x ss ≡ some (i, table))
        × (get_or table j fresh ≡ fresh)
  unfolding claim_forgetful
  claim_forgetful_lem x [] blocks j len all free lt = absurd (omega arith)
  claim_forgetful_lem x (s ∷ ss) blocks j len all free lt =
      rw (all, claim_forgetful) (grow_forgetful_lem x (s ∷ ss) blocks j (omega arith) free lt)

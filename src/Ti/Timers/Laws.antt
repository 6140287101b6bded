-- ===== src/Ti/Timers/Laws.antt =====
-- The table of timers does not grow when the speed of a timer changes.
use z80e.Common.{
  ℕ, zero, suc, ◌<◌, ◌≡◌, refl, ap, ◌∙◌, arith, Bool, false, List, [], ◌∷◌, some, bit_and, ◌|||◌,
  int_not, length, Bool-cases, inl, inr, mask-bit, bit-bit_and,
}
use z80e.Hooks.Slots.{claim, reclaim}
use z80e.Ti.Timers.{
  Doubles, Timer, timer_in_use, no_timer, asic_add_timer, asic_remove_timer, set_timer_frequency,
}

length-reclaim :
    {A : Type 0} (free : A → A) (ss : List A) (i : ℕ) → length (reclaim free ss i) ≡ length ss
unfolding reclaim
length-reclaim free [] i = refl
length-reclaim free (s ∷ ss) zero = refl
length-reclaim free (s ∷ ss) (suc i) = ap suc (length-reclaim free ss i)

module _ {A : Type 0} (in_use : A → Bool) (fresh : A) (free : A → A)
    (frees : (a : A) → in_use (free a) ≡ false) where
  -- With an entry freed, the search stays in the table.
  length-claim-reclaim :
      (x s : A) (ss : List A) (i : ℕ)
      → i < length (s ∷ ss)
      → (k : ℕ) × (table : List A) × (claim in_use fresh x (reclaim free (s ∷ ss) i)
          ≡ some (k, table))
        × (length table ≡ length (s ∷ ss))
        × (k < length table)
  unfolding claim reclaim
  length-claim-reclaim x s [] zero lt = (0, x ∷ [], rw (frees s) refl, refl, omega arith)
  length-claim-reclaim x s (t ∷ ss) zero lt = (0, x ∷ t ∷ ss, rw (frees s) refl, refl, omega arith)
  length-claim-reclaim x s [] (suc i) lt = absurd (omega arith)
  length-claim-reclaim x s (t ∷ ss) (suc zero) lt = elim (Bool-cases (in_use s)) [
    | inl used ↦
        let (k, table, e, same, inside) = length-claim-reclaim x t ss zero (omega arith) in
        (suc k, s ∷ table, simp (used, e), ap suc same, omega arith)
    | inr unused ↦ (
      0,
      x ∷ reclaim free (t ∷ ss) zero,
      simp unused,
      ap suc (length-reclaim free (t ∷ ss) zero),
      omega arith,
    )
  ]
  length-claim-reclaim x s (t ∷ ss) (suc (suc i)) lt = elim (Bool-cases (in_use s)) [
    | inl used ↦
        let (k, table, e, same, inside) = length-claim-reclaim x t ss (suc i) (omega arith) in
        (suc k, s ∷ table, simp (used, e), ap suc same, omega arith)
    | inr unused ↦ (
      0,
      x ∷ reclaim free (t ∷ ss) (suc i),
      simp unused,
      ap suc (length-reclaim free (t ∷ ss) (suc i)),
      omega arith,
    )
  ]

module _ {F T : Type 0} (doubles : Doubles F) (null : T) where
  -- A timer whose flag is cleared is free.
  freed :
      (timer : Timer F T)
      → timer_in_use doubles null (record timer { flags = bit_and timer.flags (int_not 1) }) ≡ false
  unfolding timer_in_use
  freed timer = mask-bit 0 (bit_and timer.flags (int_not 1)) ∙ rw (bit-bit_and) (ground arith)

  -- A new frequency, not zero, for a timer that has an index in the table: a timer is found in the
  -- table, which does not grow, and the index kept for it lies in the table again.
  pub set_timer_frequency-length :
      (clock_rate : ℕ) (tick : T) (index : ℕ) (speed : F) (timers : List (Timer F T))
      → doubles.is_zero speed ≡ false
      → index < length timers
      → (id : ℕ) × (timers' : List (Timer F T)) × (set_timer_frequency doubles null clock_rate tick
            (some index)
            speed
            timers
          ≡ some (some id, timers'))
        × (length timers' ≡ length timers)
        × (id < length timers')
  unfolding set_timer_frequency asic_add_timer asic_remove_timer
  set_timer_frequency-length clock_rate tick index speed [] nonzero lt = absurd (omega arith)
  set_timer_frequency-length clock_rate tick index speed (t ∷ ts) nonzero lt =
      let (id, timers', e, same, inside) =
        length-claim-reclaim (timer_in_use doubles null) (no_timer doubles null) _ freed
          (record {
            cycles_until_tick = doubles.period clock_rate speed;
            flags = 0 ||| 1;
            frequency = speed;
            on_tick = tick;
          })
          t ts index lt in
      (id, timers', simp (nonzero, e), same, inside)

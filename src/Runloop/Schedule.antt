-- ===== src/Runloop/Schedule.antt =====
-- When the ticks of a timer fall.
use z80e.Common.{
  ℕ, zero, suc, ◌+◌, ◌-◌, ◌*◌, ◌≤◌, ◌<◌, ◌≡◌, refl, arith, List, [], ◌∷◌, some, leb, Bool-cases,
  inl, inr,
}
use z80e.Runloop.{TimerTick, timer_ticks}

-- The ticks of a period from a place on, `n` of them.
unfoldable pub ticks_from : ℕ → ℕ → ℕ → ℕ → List TimerTick
ticks_from zero index period place = []
ticks_from (suc n) index period place =
    record { index = index; after_cycle = place } ∷ ticks_from n index period (place + period)

-- For a timer in use with a period of at least one cycle that ticks in the share of cycles at hand:
-- with fuel for as many steps as there are cycles, the ticks are at its next tick and a period apart,
-- as many as there are up to the end of the share, and the count that is left is a whole period.
pub timer_ticks-ticks_from :
    (fuel index period cycles tot_cycles until : ℕ)
    → 1 ≤ period
    → until ≤ tot_cycles
    → tot_cycles ≤ cycles
    → tot_cycles - until < fuel
    → (n : ℕ) × (timer_ticks fuel index period cycles tot_cycles until
        ≡ some (ticks_from (suc n) index period (until + (cycles - tot_cycles)), period))
      × (until + n * period ≤ tot_cycles)
      × (tot_cycles < until + suc n * period)
unfolding timer_ticks ticks_from
timer_ticks-ticks_from zero index period cycles tot_cycles until pos inside share enough =
    absurd (omega arith)
timer_ticks-ticks_from (suc fuel) index period cycles tot_cycles until pos inside share enough =
    let left = tot_cycles - until in
    elim (Bool-cases (leb period left)) [
      | inr last ↦ (0, rw last refl, omega arith, ground arith)
      | inl more ↦
          let le : period ≤ left = ground arith in
          let (n, e, reached, passed) =
            timer_ticks-ticks_from fuel index period cycles left period pos le (omega arith)
              (omega arith) in
          let place : period + (cycles - left) ≡ until + (cycles - tot_cycles) + period =
            omega arith in
          (suc n, rw (more, e, place) refl, grind arith, grind arith)
    ]

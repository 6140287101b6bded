-- ===== src/Runloop/Collect.antt =====
-- Where the ticks of a share of cycles fall.
use z80e.Common.{
  ℕ, zero, suc, ◌+◌, ◌-◌, ◌*◌, ◌≤◌, ◌<◌, ◌≡◌, refl, arith, true, List, [], ◌∷◌, ◌++◌, some, ltb,
  get_or, Bool-cases, inl, inr,
}
use z80e.Runloop.{TimerTick, collect_ticks}
use z80e.Runloop.Schedule.{ticks_from, timer_ticks-ticks_from}
use z80e.Ti.Timers.{Doubles, Timer, timer_in_use}

-- Every tick is due after at most `limit` cycles.
unfoldable pub PlacesWithin : ℕ → List TimerTick → Type 0
PlacesWithin limit [] = Unit {0}
PlacesWithin limit (tick ∷ ticks) = (tick.after_cycle ≤ limit) × PlacesWithin limit ticks

within_nil : (limit : ℕ) → PlacesWithin limit []
unfolding PlacesWithin
within_nil limit = tt

ticks_from-PlacesWithin :
    (limit n index period place : ℕ)
    → place + n * period ≤ limit
    → PlacesWithin limit (ticks_from (suc n) index period place)
unfolding PlacesWithin ticks_from
ticks_from-PlacesWithin limit zero index period place h = (omega arith, tt)
ticks_from-PlacesWithin limit (suc n) index period place h =
    (omega arith, ticks_from-PlacesWithin limit n index period (place + period) (grind arith))

pub within_le :
    (limit limit' : ℕ) (ticks : List TimerTick)
    → limit ≤ limit'
    → PlacesWithin limit ticks
    → PlacesWithin limit' ticks
unfolding PlacesWithin
within_le limit limit' [] le h = tt
within_le limit limit' (tick ∷ ticks) le h =
    (omega (arith, h.0), within_le limit limit' ticks le h.1)

pub append-PlacesWithin :
    (limit : ℕ) (l m : List TimerTick)
    → PlacesWithin limit l
    → PlacesWithin limit m
    → PlacesWithin limit (l ++ m)
unfolding PlacesWithin
append-PlacesWithin limit [] m h k = k
append-PlacesWithin limit (tick ∷ l) m h k = (h.0, append-PlacesWithin limit l m h.1 k)

pub within-get_or :
    (limit : ℕ) (ticks : List TimerTick) (i : ℕ)
    → PlacesWithin limit ticks
    → (get_or ticks i (record { index = 0; after_cycle = 0 })).after_cycle ≤ limit
unfolding PlacesWithin
within-get_or limit [] i h = omega arith
within-get_or limit (tick ∷ ticks) zero h = h.0
within-get_or limit (tick ∷ ticks) (suc i) h = within-get_or limit ticks i h.1

module _ {F T : Type 0} (doubles : Doubles F) (null : T) where
  -- Every timer in use has a period of at least one cycle.
  unfoldable pub HasPeriods : ℕ → List (Timer F T) → Type 0
  HasPeriods clock_rate [] = Unit {0}
  HasPeriods clock_rate (timer ∷ timers) =
      (timer_in_use doubles null timer ≡ true → 1 ≤ doubles.period clock_rate timer.frequency)
      × HasPeriods clock_rate timers

  -- For timers with periods: fuel for a step more than the share has cycles is enough to collect the
  -- ticks, and each of them is due within the share.
  pub collect_ticks-PlacesWithin :
      (fuel clock_rate cycles i : ℕ) (timers : List (Timer F T))
      → HasPeriods clock_rate timers
      → cycles < fuel
      → (ticks : List TimerTick) × (timers' : List (Timer F T)) × (collect_ticks doubles null fuel
            clock_rate cycles i timers
          ≡ some (ticks, timers'))
        × PlacesWithin cycles ticks
  unfolding collect_ticks HasPeriods
  collect_ticks-PlacesWithin fuel clock_rate cycles i [] periods enough =
      ([], [], refl, within_nil cycles)
  collect_ticks-PlacesWithin fuel clock_rate cycles i (timer ∷ timers) periods enough =
      let (later, rest, e, within) =
        collect_ticks-PlacesWithin fuel clock_rate cycles (i + 1) timers periods.1 enough in
      let until = timer.cycles_until_tick in
      let period = doubles.period clock_rate timer.frequency in
      elim (Bool-cases (timer_in_use doubles null timer)) [
        | inr off ↦ (later, timer ∷ rest, rw (e, off) refl, within)
        | inl used ↦ elim (Bool-cases (ltb until cycles)) [
          | inr far ↦ (
            later,
            record timer { cycles_until_tick = until - cycles } ∷ rest,
            rw (e, used, far) refl,
            within,
          )
          | inl near ↦
              let (n, due, reached, passed) =
                timer_ticks-ticks_from fuel i period cycles cycles until (periods.0 used)
                  (ground arith) (omega arith) (omega arith) in
              let none_yet : cycles - cycles ≡ 0 = omega arith in
              let ticks = ticks_from (suc n) i period (until + (cycles - cycles)) in
              (
                ticks ++ later,
                record timer { cycles_until_tick = period } ∷ rest,
                rw (e, used, near, due) refl,
                append-PlacesWithin cycles ticks later
                    (ticks_from-PlacesWithin cycles n i period (until + (cycles - cycles))
                      (omega arith))
                    within,
              )
        ]
      ]

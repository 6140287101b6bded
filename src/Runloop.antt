-- ===== src/Runloop.antt =====
-- libz80e/src/runloop/runloop.c: the ticks of the timers that fall into a share of cycles.
pub mod Schedule
pub mod Sockets
pub mod Slice
pub mod Keeps
pub mod Fits
pub mod Ends
pub mod Collect
pub mod Returns
mod Tests
use z80e.Common.{
  ℕ, zero, suc, ◌+◌, ◌-◌, Bool, true, false, List, [], ◌∷◌, ◌++◌, Option, none, some, ltb, leb,
  if◌then◌else◌,
}
use z80e.Ti.Timers.{Doubles, Timer, timer_in_use}

-- `timer_tick_t`.
pub record TimerTick : Type 0 where
  pub index : ℕ
  pub after_cycle : ℕ

-- The code from `retry` on, for the timer at `index`: the ticks, and the cycles until the one after
-- them. `tot_cycles` of the share are left, and `until` is `cycles_until_tick`.
unfoldable pub timer_ticks : ℕ → ℕ → ℕ → ℕ → ℕ → ℕ → Option (List TimerTick × ℕ)
timer_ticks zero index period cycles tot_cycles until = none
timer_ticks (suc fuel) index period cycles tot_cycles until =
    let tick : TimerTick = record { index = index; after_cycle = until + (cycles - tot_cycles) } in
    let rest = timer_ticks fuel index period cycles (tot_cycles - until) period in
    if leb period (tot_cycles - until)
    then elim rest [ none ↦ none | some more ↦ some (tick ∷ more.0, more.1) ]
    else some (tick ∷ [], period)

module _ {F T : Type 0} (doubles : Doubles F) (null : T) where
  -- The loop over the timers, from the timer `i` on.
  unfoldable pub collect_ticks :
      ℕ → ℕ → ℕ → ℕ → List (Timer F T) → Option (List TimerTick × List (Timer F T))
  collect_ticks fuel clock_rate cycles i [] = some ([], [])
  collect_ticks fuel clock_rate cycles i (timer ∷ timers) =
      let rest = collect_ticks fuel clock_rate cycles (i + 1) timers in
      let until = timer.cycles_until_tick in
      let period = doubles.period clock_rate timer.frequency in
      elim rest [
        | none ↦ none
        | some later ↦
            if timer_in_use doubles null timer
            then (if ltb until cycles
                then elim (timer_ticks fuel i period cycles cycles until) [
                  | none ↦ none
                  | some due ↦
                      some (due.0 ++ later.0, record timer { cycles_until_tick = due.1 } ∷ later.1)
                ]
                else some (later.0, record timer { cycles_until_tick = until - cycles } ∷ later.1))
            else some (later.0, timer ∷ later.1)
      ]

  -- The loop of `runloop_init` over the timers.
  unfoldable pub start_timers : ℕ → List (Timer F T) → List (Timer F T)
  start_timers clock_rate [] = []
  start_timers clock_rate (timer ∷ timers) =
      (if timer_in_use doubles null timer
        then record timer { cycles_until_tick = doubles.period clock_rate timer.frequency }
        else timer)
      ∷ start_timers clock_rate timers

-- ===== src/Runloop/Returns.antt =====
-- A share of cycles comes to its end.
use z80e.Common.{
  ℕ, ◌+◌, ◌*◌, ◌≤◌, ◌<◌, ◌≡◌, arith, true, List, [], ◌∷◌, ◌++◌, none, some, ltb, if◌then◌else◌,
  get_or, length,
}
use z80e.Core.Cpu.{Cpu}
use z80e.Runloop.{TimerTick, collect_ticks}
use z80e.Runloop.Slice.{no_tick_entry, runloop_tick_cycles}
use z80e.Runloop.Ends.{Runs, run_slice_returns}
use z80e.Runloop.Collect.{
  PlacesWithin, append-PlacesWithin, within-get_or, within_le, HasPeriods,
  collect_ticks-PlacesWithin,
}
use z80e.Ti.Timers.{Doubles}
use z80e.Runloop.Sockets.{SocketEvents}
use z80e.Ti.Asic.{Asic, AsicHooks, no_tick}

some_ticks : (tick : TimerTick) (ticks : List TimerTick) → ltb 0 (length (tick ∷ ticks)) ≡ true
some_ticks tick ticks = ground arith

module _ {F H : Type 0} (doubles : Doubles F) (hooks : AsicHooks H) (events : ℕ → SocketEvents)
    (sort : List TimerTick → List TimerTick) where
  abbrev pub first_until : List TimerTick → ℕ → ℕ
  first_until sorted cycles =
      if ltb 0 (length sorted)
      then (get_or sorted 0 (no_tick_entry doubles hooks events sort)).after_cycle
      else cycles

  first_until_le :
      (limit cycles : ℕ) (sorted : List TimerTick)
      → cycles ≤ limit
      → PlacesWithin limit sorted
      → first_until sorted cycles ≤ limit
  unfolding PlacesWithin
  first_until_le limit cycles [] share within = share
  first_until_le limit cycles (tick ∷ sorted) share within = rw (some_ticks tick sorted) (within.0)

  first_until-due :
      (cycles : ℕ) (sorted stale : List TimerTick)
      → 0 < cycles
      → first_until sorted cycles ≡ 0
      → (get_or (sorted ++ stale) 0 (no_tick_entry doubles hooks events sort)).after_cycle ≤ 0
  first_until-due cycles [] stale on e = absurd (omega arith)
  first_until-due cycles (tick ∷ sorted) stale on e =
      let none_before : tick.after_cycle ≡ 0 = rw (some_ticks tick sorted) at e in
      omega (arith, none_before)

  -- Two turns for each cycle and one for each tick, with two more.
  unfoldable pub turns_needed : ℕ → ℕ → Cpu (Asic F H) → ℕ
  turns_needed fuel cycles cpu =
      elim (collect_ticks doubles no_tick fuel cpu.memory.clock_rate cycles 0 cpu.memory.timers) [
        | none ↦ 0
        | some collected ↦ 2 * cycles + (length (sort collected.0) + 1) + 1
      ]

  -- For a set of processors in which `cpu_execute` returns for up to `limit` cycles and which nothing
  -- in the loop leaves, timers with a period of at least one cycle, a share of at most `limit` cycles,
  -- and a sort that adds no later tick: with more turns than two for each cycle, one for each tick
  -- and two, and more fuel than cycles, a share of cycles ends, with a processor of the set, if no
  -- tick that is left in the array is later than `limit`.
  pub runloop_tick_cycles_returns :
      (fuel limit : ℕ) {P : Cpu (Asic F H) → Type 0}
      → Runs doubles hooks events sort fuel limit P
      → ((ticks : List TimerTick) → PlacesWithin limit ticks → PlacesWithin limit (sort ticks))
      → (stale : List TimerTick) (cycles turns : ℕ) (cpu : Cpu (Asic F H))
      → PlacesWithin limit stale
      → cycles ≤ limit
      → cycles < fuel
      → HasPeriods doubles no_tick cpu.memory.clock_rate cpu.memory.timers
      → turns_needed fuel cycles cpu < turns
      → P cpu
      → (excess : ℕ) × (cpu' : Cpu (Asic F H)) × (runloop_tick_cycles doubles hooks events sort
            turns fuel stale cycles cpu
          ≡ some (excess, cpu'))
        × P cpu'
  unfolding runloop_tick_cycles turns_needed
  runloop_tick_cycles_returns fuel limit runs sort_keeps stale cycles turns cpu old share less
        periods enough h =
      let (ticks, timers, e, within) =
        collect_ticks-PlacesWithin doubles no_tick fuel cpu.memory.clock_rate cycles 0
          cpu.memory.timers periods less in
      let sorted = sort ticks in
      let new : PlacesWithin limit sorted =
        sort_keeps ticks (within_le cycles limit ticks share within) in
      let all = append-PlacesWithin limit sorted stale new old in
      let started = runs.timers_kept timers cpu h in
      let needed : 2 * cycles + (length sorted + 1) + 1 < turns = rw (e, turns_needed) at enough in
      rw (e, runloop_tick_cycles)
        (run_slice_returns doubles hooks events sort fuel limit runs (sorted ++ stale)
          (length sorted) turns 0 0 cycles 0 (first_until sorted cycles) 0 _
          (λ i. within-get_or limit (sorted ++ stale) i all) share
          (first_until_le limit cycles sorted share new)
          (λ on z. first_until-due cycles sorted stale on z) (ground (arith, needed)) started)

-- ===== src/Ti/Timers.antt =====
-- The table of timers in libz80e/src/ti/asic.c, the timers of
-- libz80e/src/ti/hardware/interrupts.c, and `struct crystal_timer` of
-- libz80e/src/ti/hardware/timers.c. Frequencies are C doubles: their arithmetic is a parameter.
pub mod Laws
use z80e.Common.{
  ℕ, zero, suc, ◌+◌, ◌*◌, ◌/◌, ◌%◌, ◌^◌, Bool, true, false, List, [], ◌∷◌, Option, none, some,
  bit_and, ◌|||◌, ◌==◌, if◌then◌else◌, switch, to_bool, replicate, int_not, ◌>>>◌,
}
use z80e.Hooks.Slots.{claim, reclaim}

-- What the code does with doubles: a literal in hundredths, the test `!= 0`, the division of a rate
-- by a frequency as an `int`, and that of a new rate by cycles times a frequency.
pub record Doubles (F : Type 0) : Type 0 where
  pub hundredths : ℕ → F
  pub is_zero : F → Bool
  pub period : ℕ → F → ℕ
  pub rescaled : ℕ → ℕ → F → ℕ

-- `z80_hardware_timer_t`; `T` are the functions to call on a tick.
pub record Timer (F T : Type 0) : Type 0 where
  pub cycles_until_tick : ℕ
  pub flags : ℕ
  pub frequency : F
  pub on_tick : T

-- `value >>= 1; value & 3`.
abbrev pub speed_of : ℕ → ℕ
speed_of value = bit_and (value >>> 1) 3

module _ {F T : Type 0} (doubles : Doubles F) (null : T) where
  -- `flags & TIMER_IN_USE`.
  unfoldable pub timer_in_use : Timer F T → Bool
  timer_in_use timer = to_bool (bit_and timer.flags 1)

  unfoldable pub no_timer : Timer F T
  no_timer = record {
    cycles_until_tick = 0;
    flags = 0;
    frequency = doubles.hundredths 0;
    on_tick = null;
  }

  unfoldable pub asic_add_timer : ℕ → ℕ → F → T → List (Timer F T) → Option (ℕ × List (Timer F T))
  asic_add_timer clock_rate flags frequency tick timers =
      claim timer_in_use no_timer
        (record {
          cycles_until_tick = doubles.period clock_rate frequency;
          flags = flags ||| 1;
          frequency = frequency;
          on_tick = tick;
        })
        timers

  unfoldable pub asic_remove_timer : List (Timer F T) → ℕ → List (Timer F T)
  asic_remove_timer timers index =
      reclaim (λ timer. record timer { flags = bit_and timer.flags (int_not 1) }) timers index

  -- The loop of `asic_set_clock_rate`.
  unfoldable pub rescale_all : ℕ → List (Timer F T) → List (Timer F T)
  rescale_all new_rate [] = []
  rescale_all new_rate (timer ∷ timers) =
      (if timer_in_use timer
        then record timer {
          cycles_until_tick = doubles.rescaled new_rate timer.cycles_until_tick timer.frequency;
        }
        else timer)
      ∷ rescale_all new_rate timers

  -- `set_first_timer_frequency` and `set_second_timer_frequency`, which differ in the field and in
  -- the function called: `id` is `none` for -1. The result is the new id and the table.
  unfoldable pub set_timer_frequency :
      ℕ → T → Option ℕ → F → List (Timer F T) → Option (Option ℕ × List (Timer F T))
  set_timer_frequency clock_rate tick id speed timers =
      let freed : List (Timer F T) = elim id [
        | none ↦ timers
        | some index ↦ asic_remove_timer timers index
      ] in
      if doubles.is_zero speed
      then some (none, freed)
      else elim (asic_add_timer clock_rate 0 speed tick freed) [
        | none ↦ none
        | some added ↦ some (some added.0, added.1)
      ]

  -- `first_timer_table` and `second_timer_table`: by whether the device is not the TI-83+.
  unfoldable pub first_timer_speed : Bool → ℕ → F
  first_timer_speed other speed = doubles.hundredths (
      switch speed 0
        (if other then 51200 ∷ 22755 ∷ 14629 ∷ 10779 ∷ [] else 56000 ∷ 24800 ∷ 17000 ∷ 11800 ∷ []))

  unfoldable pub second_timer_speed : Bool → ℕ → F
  second_timer_speed other speed = doubles.hundredths (
      switch speed 0 (
        if other then 102400 ∷ 45511 ∷ 29257 ∷ 21528 ∷ [] else 112000 ∷ 49700 ∷ 34400 ∷ 23600 ∷ []))

-- `struct crystal_timer`: what is written is read back, and nothing counts.
pub record CrystalTimer : Type 0 where
  pub frequency : ℕ
  pub loop : ℕ
  pub counter : ℕ

unfoldable pub read_timer_port : ℕ → CrystalTimer → ℕ
read_timer_port field timer = switch field 0 (timer.frequency ∷ timer.loop ∷ timer.counter ∷ [])

unfoldable pub write_timer_port : ℕ → CrystalTimer → ℕ → CrystalTimer
write_timer_port field timer val = switch field timer (
    record timer { frequency = val }
    ∷ record timer { loop = val }
    ∷ record timer { counter = val }
    ∷ [])

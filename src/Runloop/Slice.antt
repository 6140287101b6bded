-- ===== src/Runloop/Slice.antt =====
-- `runloop_tick_cycles`: the ticks of a share of cycles, and the loop that runs the processor between
-- them.
use z80e.Common.{
  ℕ, zero, suc, ◌+◌, ◌-◌, List, ◌++◌, Option, none, some, ltb, leb, if◌then◌else◌, get_or, length,
}
use z80e.Core.Cpu.{Cpu}
use z80e.Core.Cpu.Execute.{cpu_execute}
use z80e.Runloop.{TimerTick, collect_ticks}
use z80e.Ti.Link.{link_read_tx_buffer}
use z80e.Ti.Timers.{Doubles, no_timer}
use z80e.Runloop.Sockets.{SocketEvents, link_socket_update}
use z80e.Ti.Asic.{Asic, AsicHooks, no_tick, timer_tick}
use z80e.Ti.Asic.Ports.{with_pin}
use z80e.Ti.Asic.Machine.{asic_board}

-- `events` is what the system says of the sockets, by the number of turns that the fuel still has;
-- `sort` is `qsort` of the ticks by their cycle.
module _ {F H : Type 0} (doubles : Doubles F) (hooks : AsicHooks H) (events : ℕ → SocketEvents)
    (sort : List TimerTick → List TimerTick) where
  abbrev pub with_asic : (Asic F H → Asic F H) → Cpu (Asic F H) → Cpu (Asic F H)
  with_asic g cpu = record cpu { memory = g cpu.memory }

  unfoldable pub update_link : ℕ → Asic F H → Asic F H
  update_link turn asic =
      let (c, link, pin) = link_read_tx_buffer asic.link asic.interrupts.pin in
      link_socket_update (events turn) c
        (record asic { link = link; interrupts = with_pin pin asic.interrupts })

  -- `timer->on_tick(asic, timer->data)` for the timer at an index.
  unfoldable pub tick_at : ℕ → Asic F H → Asic F H
  tick_at index asic =
      let timer = get_or asic.timers index (no_timer doubles no_tick) in
      timer_tick timer.on_tick asic

  -- `ticks[i].after_cycle` and `ticks[i].index`: behind the sorted ticks are those of the share before.
  abbrev pub no_tick_entry : TimerTick
  no_tick_entry = record { index = 0; after_cycle = 0 }

  -- The `while` loop. `cycles_until_next_tick` is `ahead - behind`; the result has the cycles that
  -- the loop ran in excess.
  unfoldable pub run_slice :
      ℕ
      → ℕ
      → List TimerTick
      → ℕ
      → ℕ
      → ℕ
      → ℕ
      → ℕ
      → ℕ
      → ℕ
      → Cpu (Asic F H)
      → Option (ℕ × Cpu (Asic F H))
  run_slice zero fuel ticks current_tick tick_i total_cycles cycles excess ahead behind cpu = none
  run_slice (suc turns) fuel ticks current_tick tick_i total_cycles cycles excess ahead behind cpu =
      if ltb 0 cycles
      then elim (cpu_execute (asic_board doubles hooks) fuel ahead behind cpu) [
        | none ↦ none
        | some executed ↦
            let ran = ahead + executed.0 - behind in
            let cpu' = with_asic (update_link turns) executed.1 in
            let total = total_cycles + ran in
            let next = get_or ticks (tick_i + 1) no_tick_entry in
            let due = get_or ticks tick_i no_tick_entry in
            let ticked = with_asic (tick_at due.index) cpu' in
            if leb due.after_cycle total
            then (if leb (tick_i + 1) current_tick
                then run_slice turns fuel ticks current_tick (tick_i + 1) total (cycles - ran)
                    (ran - cycles) (next.after_cycle - total) (total - next.after_cycle) ticked
                else run_slice turns fuel ticks current_tick (tick_i + 1) total (cycles - ran)
                    (ran - cycles) (cycles - ran) (ran - cycles) cpu')
            else run_slice turns fuel ticks current_tick tick_i total (cycles - ran) (ran - cycles)
                ahead behind cpu'
      ]
      else some (excess, cpu)

  -- `stale` are the ticks that the array has behind the new ones.
  unfoldable pub runloop_tick_cycles :
      ℕ → ℕ → List TimerTick → ℕ → Cpu (Asic F H) → Option (ℕ × Cpu (Asic F H))
  runloop_tick_cycles turns fuel stale cycles cpu =
      elim (collect_ticks doubles no_tick fuel cpu.memory.clock_rate cycles 0 cpu.memory.timers) [
        | none ↦ none
        | some collected ↦
            let sorted = sort collected.0 in
            let until =
              if ltb 0 (length sorted)
              then (get_or sorted 0 no_tick_entry).after_cycle
              else cycles in
            run_slice turns fuel (sorted ++ stale) (length sorted) 0 0 cycles 0 until 0
              (with_asic (λ asic. record asic { timers = collected.1 }) cpu)
      ]

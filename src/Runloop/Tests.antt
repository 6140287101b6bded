-- ===== src/Runloop/Tests.antt =====
-- The run loop at concrete shares of cycles.
use z80e.Core.Cpu.Execute.{step, step_context, clears_wait, takes_interrupt, cpu_execute}
use z80e.Ti.Asic.Machine.{asic_board}
use z80e.Runloop.Sockets.{
  SocketEvents, link_socket_update, update_clients, serve_client, seated, receive,
}
use z80e.Runloop.Ends.{Runs}
use z80e.Runloop.Collect.{PlacesWithin, HasPeriods}
use z80e.Runloop.Returns.{turns_needed, runloop_tick_cycles_returns}
use z80e.Common.{
  ℕ, ◌+◌, ◌*◌, ◌≤◌, ◌<◌, ◌≡◌, refl, arith, [], ◌∷◌, Option, none, some, suc, zero, true, false, ◌-◌,
  ltb, ◌!=◌, Bool-cases, inl, inr,
}
use z80e.Core.Cpu.{Cpu, exec_code}
use z80e.Ti.Asic.{Asic, no_tick, first_timer_tick}
use z80e.Ti.Timers.{timer_in_use, no_timer}
use z80e.Ti.Tests.Devices.{hundredths}
use z80e.Ti.Tests.Hardware.{counting, cpu, cpu-RegistersFit, cpu-HardwareFits, hardware_code}
use z80e.Runloop.{timer_ticks, collect_ticks}
use z80e.Runloop.Schedule.{ticks_from, timer_ticks-ticks_from}
use z80e.Runloop.Slice.{update_link, tick_at, run_slice, runloop_tick_cycles}
use z80e.Runloop.Fits.{runloop_tick_cycles_inside}
use z80e.Core.Cpu.Invariant.Pure.{RegistersFit}
use z80e.Ti.Asic.Fits.{HardwareFits}
use z80e.Ti.Link.{link_recv_byte, link_recv_ready}
use z80e.Common.{replicate}

-- A timer with a period of three, next due after two cycles, in a share of ten.
timer_ticks-ticks_from_example :
    (n : ℕ) × (timer_ticks 11 1 3 10 10 2 ≡ some (ticks_from (suc n) 1 3 2, 3))
    × (2 + n * 3 ≤ 10)
    × (10 < 2 + suc n * 3)
timer_ticks-ticks_from_example =
    timer_ticks-ticks_from 11 1 3 10 10 2 (omega arith) (omega arith) (omega arith) (omega arith)

-- The count starts again at three where one cycle of the period has passed.
restarts :
    timer_ticks 11 1 3 9 9 2
    ≡ some (
      record { index = 1; after_cycle = 2 }
          ∷ record { index = 1; after_cycle = 5 }
          ∷ record { index = 1; after_cycle = 8 }
          ∷ [],
      3,
    )
unfolding timer_ticks
restarts = refl

-- Nothing comes in over the sockets.
abbrev quiet : ℕ → SocketEvents
quiet turn = record {
  accepted = none;
  client = λ i. record { hung_up = false; readable = false; received = none };
}

abbrev share : Option (ℕ × Cpu (Asic ℕ ℕ))
share = runloop_tick_cycles hundredths counting quiet (λ ticks. ticks) 3 8 [] 18 cpu

abbrev after_share : Cpu (Asic ℕ ℕ)
after_share = elim share [ none ↦ cpu | some r ↦ r.1 ]

ends : share ≡ some (0, after_share)
unfolding hardware_code runloop_tick_cycles run_slice collect_ticks update_link tick_at
    link_socket_update timer_in_use no_timer
ends = refl

row : after_share.memory.lcd.x ≡ 5
unfolding hardware_code runloop_tick_cycles run_slice collect_ticks update_link tick_at
    link_socket_update timer_in_use no_timer
row = refl

unmarked : after_share.memory.stuck ≡ false
unfolding hardware_code runloop_tick_cycles run_slice collect_ticks update_link tick_at
    link_socket_update timer_in_use no_timer
unmarked = refl

runloop_tick_cycles_inside_example :
    (cpu.memory.stuck ≡ false)
    × RegistersFit after_share.registers
    × HardwareFits after_share.memory
runloop_tick_cycles_inside_example =
    runloop_tick_cycles_inside hundredths counting quiet (λ ticks. ticks) 3 8 [] 18 cpu
      cpu-RegistersFit cpu-HardwareFits 0 after_share ends unmarked

-- With a client that sends 7: the byte arrives, and the loop leaves the array of clients.
abbrev talking : SocketEvents
talking = record {
  accepted = none;
  client = λ i. record { hung_up = false; readable = true; received = some 7 };
}

abbrev listening : Asic ℕ ℕ
listening = record (cpu.memory) {
  sockets = record { accept = 4096; listenfd = 3; clients = 0 ∷ 5 ∷ replicate 8 0 };
}

arrives :
    ((link_socket_update talking none listening).link.rx_buffer ≡ 7)
    × ((link_socket_update talking none listening).sockets.accept ≡ 0)
    × ((link_socket_update talking none listening).stuck ≡ true)
unfolding hardware_code link_socket_update update_clients serve_client seated receive link_recv_byte
    link_recv_ready
arrives = (refl, refl, refl)

-- Halted with interrupts off: the processor waits.
unfoldable Waits : Cpu (Asic ℕ ℕ) → Type 0
Waits cpu = (cpu.halted ≡ true) × (cpu.iff2 ≡ false) × (cpu.prefix ≡ 0)

Waits-step :
    (cpu : Cpu (Asic ℕ ℕ))
    → Waits cpu
    → ((step (asic_board hundredths counting) cpu).0 ≡ 4)
      × Waits (step (asic_board hundredths counting) cpu).1
unfolding Waits exec_code step step_context clears_wait takes_interrupt z80e.Core.Cpu.add_cycles
Waits-step cpu (halted, off, none_pending) = rw (halted, off) (refl, (refl, refl, none_pending))

Waits-returns :
    (fuel ahead behind : ℕ) (cpu : Cpu (Asic ℕ ℕ))
    → ahead < fuel
    → Waits cpu
    → (over : ℕ) × (cpu' : Cpu (Asic ℕ ℕ)) × (cpu_execute
          (asic_board hundredths counting)
          fuel
          ahead
          behind
          cpu
        ≡ some (over, cpu'))
      × Waits cpu'
unfolding cpu_execute Waits
Waits-returns zero ahead behind cpu enough h = absurd (omega arith)
Waits-returns (suc fuel) ahead behind cpu enough h =
    let used = (step (asic_board hundredths counting) cpu).0 in
    let (four, later) = Waits-step cpu h in
    let none_pending : (cpu.prefix != 0) ≡ false = let (halted, off, clear) = h in rw clear refl in
    elim (Bool-cases (ltb 0 ahead)) [
      | inr done ↦ (behind, cpu, rw (done, none_pending) refl, h)
      | inl on ↦
          let (over, cpu', e, kept) =
            Waits-returns fuel (ahead - used) (behind + (used - ahead))
              (step (asic_board hundredths counting) cpu).1 (ground arith) later in
          (over, cpu', rw on e, kept)
    ]

Waits-Runs : Runs hundredths counting quiet (λ ticks. ticks) 21 20 Waits
unfolding Waits
Waits-Runs = record {
  returns = λ ahead behind cpu near h. Waits-returns 21 ahead behind cpu (omega arith) h;
  link_kept = λ turn cpu h. h;
  tick_kept = λ index cpu h. h;
  timers_kept = λ timers cpu h. h;
}

abbrev waiting : Cpu (Asic ℕ ℕ)
waiting = record cpu {
  halted = true;
  memory = record (cpu.memory) {
    clock_rate = 600;
    timers =
        record { cycles_until_tick = 2; flags = 1; frequency = 100; on_tick = first_timer_tick }
        ∷ [];
  };
}

waiting-HasPeriods : HasPeriods hundredths no_tick waiting.memory.clock_rate waiting.memory.timers
unfolding HasPeriods
waiting-HasPeriods = ((λ used. omega arith), tt)

none_stale : PlacesWithin 20 []
unfolding PlacesWithin
none_stale = tt

enough_turns : turns_needed hundredths counting quiet (λ ticks. ticks) 21 18 waiting < 60
unfolding turns_needed collect_ticks timer_ticks timer_in_use
enough_turns = omega arith

waiting-Waits : Waits waiting
unfolding Waits
waiting-Waits = (refl, refl, refl)

runloop_tick_cycles_returns_example :
    (excess : ℕ) × (cpu' : Cpu (Asic ℕ ℕ)) × (runloop_tick_cycles hundredths counting quiet
        (λ ticks. ticks)
        60
        21
        []
        18
        waiting
      ≡ some (excess, cpu'))
    × Waits cpu'
runloop_tick_cycles_returns_example =
    runloop_tick_cycles_returns hundredths counting quiet (λ ticks. ticks) 21 20 Waits-Runs
      (λ ticks h. h) [] 18 60 waiting none_stale (omega arith) (omega arith) waiting-HasPeriods
      enough_turns waiting-Waits
